-- ===== src/Tunnel.antt =====
-- ssh/server/tunnel.go: the tunnel through which the SSH server reaches a device, over whatever opens
-- a stream by a device's identifier.
use mini_shellhub.Prelude.{ℕ, Text, codes, Result, ok, err, panic}
use mini_shellhub.Devices.{DeviceManager, StreamError, YamuxOpen, open_stream}

pub record StreamConn : Type 0 where
  pub stream : ℕ
  pub target : Text

-- The error names the device and wraps the cause.
pub record DialError : Type 0 where
  pub target : Text
  pub cause : StreamError

-- The interface Tunnel, of both ssh/server/tunnel.go and ssh/session/session_minimal.go.
pub record Tunnel : Type 0 where
  pub dial : Text → Result DialError StreamConn

dial_result : Text → Result StreamError ℕ → Result DialError StreamConn
dial_result target (ok stream) = ok (record { stream = stream; target = target })
dial_result target (err e) = err (record { target = target; cause = e })
dial_result target panic = panic

unfoldable pub tunnel_dial : (Text → Result StreamError ℕ) → Text → Result DialError StreamConn
unfolding dial_result
tunnel_dial opens target = dial_result target (opens target)

-- The tunnel over the device manager, as `main` puts it together.
unfoldable pub device_manager_tunnel : YamuxOpen → DeviceManager → Tunnel
unfolding tunnel_dial
device_manager_tunnel yo dm = record { dial = tunnel_dial (open_stream yo dm) }

pub record TunnelAddr : Type 0 where
  pub network : Text
  pub address : Text

unfoldable pub local_addr : StreamConn → TunnelAddr
local_addr c = record { network = codes "yamux"; address = codes "local" }

unfoldable pub remote_addr : StreamConn → TunnelAddr
remote_addr c = record { network = codes "yamux"; address = c.target }
