-- ===== src/Host/Laws.antt =====
-- ssh/pkg/host/host.go: the host is read back from a joined address, and which hosts are local.
use mini_shellhub.Prelude.{Text, ◌≡◌, ◌↔◌, ◌⊎◌, true, ok, arith, codes, text_eq_iff}
use mini_shellhub.Net.{join_host_port}
use mini_shellhub.Net.Laws.{IsAddr, split_host_port-join_host_port}
use mini_shellhub.Host.{Host, new_host, is_localhost}

-- NewHost of a joined address returns its host, for hosts with colons too.
pub new_host-join_host_port :
    (host port : Text)
    → IsAddr host port
    → new_host (join_host_port host port) ≡ ok (record { host = host })
unfolding new_host
new_host-join_host_port host port v = ground (arith, split_host_port-join_host_port host port)

-- IsLocalhost accepts exactly the two loopback addresses that it names.
pub is_localhost_iff :
    (h : Host) → (is_localhost h ≡ true) ↔ ((h.host ≡ codes "127.0.0.1") ⊎ (h.host ≡ codes "::1"))
unfolding is_localhost
is_localhost_iff h = (
  λ e. ground (arith, text_eq_iff h.host (codes "127.0.0.1"), text_eq_iff h.host (codes "::1")),
  λ e. ground (arith, text_eq_iff h.host (codes "127.0.0.1"), text_eq_iff h.host (codes "::1")),
)
