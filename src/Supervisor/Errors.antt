-- ===== src/Supervisor/Errors.antt =====
-- The errors that the tunnel code tells apart, with the chains that `errors.As` walks.

use cloudflared.Common.{Bool, true, false, ◌&&◌, ◌||◌}

pub data EdgeError : Type 0 where
  -- connection.DupConnRegisterTunnelError
  dup_conn_register : EdgeError
  -- *quic.IdleTimeoutError and *quic.TransportError
  idle_timeout : EdgeError
  transport : EdgeError
  -- edgediscovery.DialError
  dial : EdgeError
  -- *connection.EdgeQuicDialError, with its cause
  edge_quic_dial : EdgeError → EdgeError
  -- any other error, without and with a cause
  plain : EdgeError
  wrapped : EdgeError → EdgeError

-- errors.As(cause, &idleTimeoutError)
unfoldable pub has_idle_timeout : EdgeError → Bool
has_idle_timeout idle_timeout = true
has_idle_timeout (edge_quic_dial e) = has_idle_timeout e
has_idle_timeout (wrapped e) = has_idle_timeout e
has_idle_timeout _ = false

-- errors.As(cause, &transportError)
unfoldable pub has_transport : EdgeError → Bool
has_transport transport = true
has_transport (edge_quic_dial e) = has_transport e
has_transport (wrapped e) = has_transport e
has_transport _ = false

-- isQuicBroken; the flag says whether the error's text contains "operation not permitted".
unfoldable pub is_quic_broken : EdgeError → Bool → Bool
unfolding has_idle_timeout has_transport
is_quic_broken cause not_permitted =
    has_idle_timeout cause || (has_transport cause && not_permitted)
