-- ===== src/Connection/Selector.antt =====
-- connection/protocol.go: the three protocol selectors and NewProtocolSelector. The clock and the
-- answer of the percentage fetcher are arguments of each call of Current.
use cloudflared.Common.{ℕ, ◌+◌, Bool, false, List, Option, none, some, ltb, if◌then◌else◌}
use cloudflared.Common.Int.{ℤ, pos}
use cloudflared.Common.Bytes.{Bytes, str, bytes_eq}
use cloudflared.Connection.Protocol.{
  Protocol, http2, quic, ProtocolPercent, Fetched, chosen, fetch_error, panics, fallback, string,
  protocol_list, switch_threshold, get_protocol,
}

pub record RemoteProtocolSelector : Type 0 where
  pub current : Protocol
  pub protocol_pool : List Protocol
  pub switch_threshold : ℤ
  pub refresh_after : ℕ
  pub ttl : ℕ

pub data Selector : Type 0 where
  fixed : Protocol → Selector
  remote : RemoteProtocolSelector → Selector
  default : Protocol → Selector

-- remoteProtocolSelector.Current; `none` is the panic of an empty pool.
unfoldable pub remote_current :
    RemoteProtocolSelector
    → ℕ
    → Option (List ProtocolPercent)
    → Option (RemoteProtocolSelector × Protocol)
unfolding get_protocol
remote_current s now fetched =
    if ltb now s.refresh_after
    then some (s, s.current)
    else elim (get_protocol s.protocol_pool fetched s.switch_threshold) [
      | chosen p ↦ some (record s { current = p; refresh_after = now + s.ttl }, p)
      | fetch_error ↦ some (s, s.current)
      | panics ↦ none
    ]

-- Current of a ProtocolSelector.
unfoldable pub current : Selector → ℕ → Option (List ProtocolPercent) → Option (Selector × Protocol)
unfolding remote_current
current (fixed p) now fetched = some (fixed p, p)
current (default p) now fetched = some (default p, p)
current (remote s) now fetched = elim (remote_current s now fetched) [
  | none ↦ none
  | some (s', p) ↦ some (remote s', p)
]

-- Fallback of a ProtocolSelector.
unfoldable pub selector_fallback : Selector → Protocol × Bool
unfolding fallback
selector_fallback (fixed p) = (p, false)
selector_fallback (default p) = fallback p
selector_fallback (remote s) = fallback s.current

-- `fetchedProtocol`, which is the zero value where the fetch failed.
abbrev pub or_zero : Fetched → Protocol
or_zero (chosen p) = p
or_zero fetch_error = http2
or_zero panics = http2

-- `none` is the error for an unknown protocol flag.
unfoldable pub new_protocol_selector :
    Bytes → Bytes → Bool → Bool → Option (List ProtocolPercent) → ℕ → ℕ → Option Selector
unfolding get_protocol
new_protocol_selector flag account_tag token_provided need_pq fetched resolve_ttl now =
    let threshold = pos (switch_threshold account_tag) in
    let fetched_protocol = or_zero (get_protocol protocol_list fetched threshold) in
    if need_pq
    then some (fixed quic)
    else if bytes_eq flag (str "h2mux")
    then some (fixed http2)
    else if bytes_eq flag (string quic)
    then some (fixed quic)
    else if bytes_eq flag (string http2)
    then some (fixed http2)
    else if bytes_eq flag (str "auto")
    then if token_provided
      then some (default quic)
      else some (
          remote (record {
            current = fetched_protocol;
            protocol_pool = protocol_list;
            switch_threshold = threshold;
            refresh_after = now + resolve_ttl;
            ttl = resolve_ttl;
          }))
    else none
