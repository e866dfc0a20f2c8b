-- ===== src/Agent/Proxy.antt =====
-- agent/pkg/agent/agent.go, httpProxyHandler, of an agent in host mode: the address that it dials, and
-- its answer. Whether the dial, the answer and the hijacking succeed are parameters.
use mini_shellhub.Prelude.{
  Text, ◌∷◌, ◌++◌, ◌≡◌, ◌↔◌, Bool, true, false, not, Result, ok, err, panic, contains,
  if◌then◌else◌, arith, Bool-cases, inl, inr,
}
use mini_shellhub.Net.{AddrError, split_host_port, join_host_port}
use mini_shellhub.Net.Laws.{IsAddr, split_host_port-join_host_port, split_host_port-colons}

-- The errors are answered with status 500 and a message; `proxied` copies data both ways.
pub data Outcome : Type 0 where
  invalid_address connect_failed status_failed hijack_failed proxied : Outcome

-- `fmt.Sprintf("%s:%s", host, port)`.
unfoldable pub proxy_address : Text × Text → Text
proxy_address (host, port) = host ++ b':' ∷ port

connected : Bool → Bool → Bool → Outcome
connected false sends hijacks = connect_failed
connected true sends hijacks =
    if not sends then status_failed else if not hijacks then hijack_failed else proxied

parsed : (Text → Bool) → Bool → Bool → Result AddrError (Text × Text) → Outcome
unfolding connected proxy_address
parsed dial sends hijacks (ok parts) = connected (dial (proxy_address parts)) sends hijacks
parsed dial sends hijacks (err e) = invalid_address
parsed dial sends hijacks panic = invalid_address

unfoldable pub http_proxy_handler : (Text → Bool) → Bool → Bool → Text → Outcome
unfolding parsed
http_proxy_handler dial sends hijacks addr = parsed dial sends hijacks (split_host_port addr)

-- Where a dial fails on an address that does not split, a well-formed address is proxied exactly if its
-- host has no colon, as an IPv6 address has, and the dial of that address, the answer and the
-- hijacking succeed.
pub http_proxy_handler-proxied_iff :
    (dial : Text → Bool) (sends hijacks : Bool) (host port : Text)
    → ((addr : Text) (e : AddrError) → split_host_port addr ≡ err e → dial addr ≡ false)
    → IsAddr host port
    → (http_proxy_handler dial sends hijacks (join_host_port host port) ≡ proxied) ↔ (
        (contains host b':' ≡ false)
        × (dial (join_host_port host port) ≡ true)
        × (sends ≡ true)
        × (hijacks ≡ true))
unfolding http_proxy_handler join_host_port
http_proxy_handler-proxied_iff dial sends hijacks host port d v =
    elim (Bool-cases (contains host b':')) [
      | inl e ↦ (
        λ h. absurd (
            ground (
              arith,
              split_host_port-join_host_port host port v,
              d (host ++ b':' ∷ port) _ (split_host_port-colons host port e v.host_opens),
            )),
        λ h. absurd (ground arith),
      )
      | inr e ↦ (
        λ h. ground (arith, split_host_port-join_host_port host port v),
        λ h. ground (arith, split_host_port-join_host_port host port v),
      )
    ]
