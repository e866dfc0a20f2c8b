-- ===== src/Server.antt =====
-- ssh/server/server.go and ssh/server/auth: the callbacks of the SSH server that a client meets
-- before it opens channels.
pub mod Setup
pub mod Banners
pub mod Logins
pub mod Backing
pub mod Reachability
pub mod Reaching
pub mod Holding
use mini_shellhub.Prelude.{
  ℕ, Text, Option, Bool, true, false, ltb, Result, ok, err, panic, if◌then◌else◌, codes,
}
use mini_shellhub.Tunnel.{Tunnel}
use mini_shellhub.Session.Types.{
  Context, SessionError, M, and_then, ◌>>=◌, pure, on_error, State, state_evaluated, state_value,
}
use mini_shellhub.Session.Operations.{
  obtain_session, new_session, dial, evaluate, Handshake, auth_password, auth_call,
}

unfoldable pub conn_callback : Context → Context
conn_callback c = record c { has_conn = true }

-- The messages of ssh/server/messages, by their names; the empty banner is the success.
pub data Banner : Type 0 where
  no_banner connection_failed access_denied : Banner

evaluate_banner : ℕ → M Banner
unfolding evaluate
evaluate_banner p c = on_error (evaluate p c) access_denied λ _. pure no_banner

dial_banner : Tunnel → ℕ → M Banner
unfolding evaluate_banner dial
dial_banner tunnel p c = on_error (dial tunnel p c) connection_failed λ _. evaluate_banner p

unfoldable pub banner_handler : Tunnel → M Banner
unfolding dial_banner new_session
banner_handler tunnel c = on_error (new_session c) connection_failed (dial_banner tunnel)

close_conn : M Bool
close_conn c = ((if c.has_conn then record c { conn_closed = true } else c), ok false)

unfoldable pub password_handler : Tunnel → Handshake → Text → M Bool
unfolding obtain_session close_conn
password_handler tunnel handshake passwd = obtain_session >>= λ found c.
    if ltb (state_value found.1) (state_value state_evaluated)
    then close_conn c
    else on_error (auth_call tunnel handshake (auth_password passwd) c) false λ _. pure true

unfoldable pub publickey_handler : Tunnel → Handshake → M Bool
unfolding obtain_session
publickey_handler tunnel handshake = obtain_session >>= λ found c.
    if ltb (state_value found.1) (state_value state_evaluated)
    then (c, ok true)
    else on_error (auth_call tunnel handshake (auth_password (codes "any")) c) true λ _. pure true

-- The callbacks of the two directions of port forwarding.
unfoldable pub local_port_forwarding : Text → ℕ → Bool
local_port_forwarding host port = true

unfoldable pub reverse_port_forwarding : Text → ℕ → Bool
reverse_port_forwarding host port = false
