-- ===== src/Lib.antt =====
-- A model of cloudflared, the daemon that connects an origin server to Cloudflare's edge, and what it
-- does right. The supervisor keeps a number of connections to the edge alive: it takes an address for
-- each from edge discovery, a protocol from the protocol selector, and waits between attempts by the
-- backoff handler. The connections' events feed the tracker that answers readiness checks. Over a
-- connection come streams (h2mux) and datagrams (quic), and a request is served by the first ingress
-- rule that matches it.
--
-- Common: lists, maps, bytes and counting over the native numbers, for all parts.
-- Retry: retry/backoffhandler.go. BackoffHandler is the record of that name; BackoffTimer,
--   GetMaxBackoffDuration, SetGracePeriod and the others are functions of it. The clock's reading and
--   the value drawn are arguments. A duration is the 64-bit pattern of its nanoseconds.
-- Connection: connection/protocol.go and edgediscovery/protocol.go. Protocol, the three selectors, the
--   rollout percentages and the account's threshold. What the percentage fetcher answers is an argument.
--   connection/header.go (Headers): the headers of a request as one header, with base64 as an argument.
-- Edge: edgediscovery/allregions/ and edgediscovery/edgediscovery.go. AddrSet is the map from addresses
--   to their users; Region and Regions hold such sets; get_addr and get_different_addr are Edge.GetAddr
--   and Edge.GetDifferentAddr. The order in which Go iterates over a map is an argument, a permutation.
-- Supervisor: supervisor/tunnel.go (Errors, Fallback, AddrFallback: the protocol and the address of the
--   next attempt, with the end of Serve) and supervisor/supervisor.go (Run: the loop of Supervisor.Run as a step for each
--   case of its select, with initialize before it), and supervisor/reconnect.go with
--   tunnelrpc/pogs/auth_outcome.go (Reconnect: the token and its refreshing).
-- Datagram: quic/datagram.go, quic/datagramv2.go, quic/param_unix.go, quic/param_windows.go,
--   packet/session.go, tracing/identity.go. The two muxers; what the connection accepts, which case
--   of a select goes ahead and uuid.FromBytes are arguments.
-- Sessions: datagramsession/manager.go and session.go. The manager's loop takes one event at a time, and
--   the reading goroutines of the sessions take their turns between them, as a list of events.
-- Funnels: packet/funnel.go. FunnelTracker, with a funnel as an address; its methods hold the lock, so
--   that any use of it is a list of calls.
-- Tracker: connection/event.go, tunnelstate/conntracker.go, metrics/readiness.go.
-- Streams: h2mux/activestreammap.go (Active). Each method holds the lock, so that any interleaving of
--   goroutines is a list of calls. h2mux/readylist.go (Ready): a store of descriptors, and a step for
--   each case of the selects of ReadyList.run; Queue is what it promises.
--   h2mux/muxedstream.go with the data frames of muxreader.go and muxwriter.go (Stream): the windows
--   and the buffers of one stream, without compression.
-- Orchestration: orchestration/orchestrator.go. UpdateConfig and updateIngress; the decoding of a
--   configuration and the start of a rule's service are operations of a record that is an argument.
-- Ingress: ingress/ingress.go, ingress/rule.go. The matching of requests and the validation of
--   hostnames and paths; compiled regular expressions, punycode and the services are arguments or left.
--   Ingress/Origin: ingress/config.go. OriginRequestConfig with its setters, its raw form, the flags.
--
-- Access: ipaccess/access.go, with what it uses of net and sort (Net, Ports). NewPolicy sorts the
--   ports of a rule in place, so the policy that it returns holds sorted rules.
-- Socks: socks/. World holds the bytes that are to come and what was done, in order; a step returns a
--   result or an error with the world after it. Address, Auth and Server follow request.go,
--   auth_handler.go with authenticator.go, and connection_handler.go with request_handler.go.
--
-- Loops are recursion on lists, on the number of turns left or on a list of events. Two take fuel, with
-- a theorem or a lemma that it is enough: the binary search of a rule's ports, as many turns as there
-- are ports, and the data frames of a chunk, one turn more than it has bytes. Indices and counters of 8, 32 and 64 bits wrap as they do in Go.
--
-- Not modelled: the HTTP/2, QUIC and RPC servers, the dialling and copying of streams, the
-- management service, DNS, tokens, the command line and the API client, which are I/O around
-- libraries; and vendored or generated code. The DNS lookup of addresses is a parameter.

pub mod Common
pub mod Retry
pub mod Connection
pub mod Supervisor
pub mod Edge
pub mod Datagram
pub mod Tracker
pub mod Streams
pub mod Ingress
pub mod Orchestration
pub mod Access
pub mod Socks
pub mod Sessions
pub mod Funnels
