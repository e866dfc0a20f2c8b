-- ===== src/WsConn/Deadlines.antt =====
-- pkg/yamuxws/yamuxws.go: the deadlines and the addresses of a WSConn. What the WebSocket library's calls
-- return is a parameter.
use mini_shellhub.Prelude.{
  ℕ, Text, ◌≡◌, Bool, true, false, ◌&&◌, Option, none, some, codes, arith, if◌then◌else◌,
}

pub record Deadlines : Type 0 where
  pub read : Option ℕ
  pub write : Option ℕ

-- Whether the library sets a deadline; where it does not, it returns an error.
pub record Setters : Type 0 where
  pub sets_read : ℕ → Bool
  pub sets_write : ℕ → Bool

unfoldable pub set_read_deadline : Setters → ℕ → Deadlines → Deadlines × Bool
set_read_deadline o t d = if o.sets_read t then (record d { read = some t }, true) else (d, false)

unfoldable pub set_write_deadline : Setters → ℕ → Deadlines → Deadlines × Bool
set_write_deadline o t d =
    if o.sets_write t then (record d { write = some t }, true) else (d, false)

after_read : Setters → ℕ → Deadlines × Bool → Deadlines × Bool
unfolding set_write_deadline
after_read o t (d, false) = (d, false)
after_read o t (d, true) = set_write_deadline o t d

unfoldable pub set_deadline : Setters → ℕ → Deadlines → Deadlines × Bool
unfolding after_read set_read_deadline
set_deadline o t d = after_read o t (set_read_deadline o t d)

-- SetDeadline succeeds exactly if it has set both deadlines; a failure leaves the writes' deadline as it
-- was, and the reads' as well, unless that one could be set.
pub set_deadline_lem :
    (o : Setters) (t : ℕ) (d : Deadlines)
    → let (e, ok) = set_deadline o t d in
      (ok ≡ (o.sets_read t && o.sets_write t))
      × (e.read ≡ (if o.sets_read t then some t else d.read))
      × (e.write ≡ (if ok then some t else d.write))
unfolding set_deadline
set_deadline_lem o t d = ground arith

-- The address of the library's connection, which may be nil, as wsAddr gives it.
pub record Addr : Type 0 where
  pub network : Text
  pub address : Text

unfoldable pub ws_addr : Option Addr → Addr
ws_addr none = record { network = codes "ws"; address = codes "websocket" }
ws_addr (some addr) = addr

-- NewWSConn's two addresses.
pub record Addrs : Type 0 where
  pub local : Addr
  pub remote : Addr

unfoldable pub addrs : Option Addr → Option Addr → Addrs
unfolding ws_addr
addrs local remote = record { local = ws_addr local; remote = ws_addr remote }
