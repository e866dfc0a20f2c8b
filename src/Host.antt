-- ===== src/Host.antt =====
-- ssh/pkg/host/host.go: the address that a client connects from.
pub mod Laws
use mini_shellhub.Prelude.{Text, Bool, ◌||◌, Result, ok, ◌>>=◌, codes, text_eq}
use mini_shellhub.Net.{AddrError, split_host_port}

pub record Host : Type 0 where
  pub host : Text

unfoldable pub new_host : Text → Result AddrError Host
new_host address = split_host_port address >>= λ parts. ok (record { host = parts.0 })

unfoldable pub is_localhost : Host → Bool
is_localhost h = text_eq h.host (codes "127.0.0.1") || text_eq h.host (codes "::1")
