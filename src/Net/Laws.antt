-- ===== src/Net/Laws.antt =====
-- An address that is joined splits into the same host and port.
use mini_shellhub.Prelude.{
  Text, [], ◌∷◌, ◌++◌, ◌≡◌, false, ok, arith, contains, contains-append, cut-append,
}
use mini_shellhub.Prelude.{
  true, append_assoc, contains→cut, cut-some, contains_middle, cut, err, some,
}
use mini_shellhub.Net.{too_many_colons, split_host_port, join_host_port}

-- Neither part holds a bracket, and the port holds no colon.
pub record IsAddr (host port : Text) : Type 0 where
  pub host_opens : contains host b'[' ≡ false
  pub host_closes : contains host b']' ≡ false
  pub port_opens : contains port b'[' ≡ false
  pub port_closes : contains port b']' ≡ false
  pub port_colon : contains port b':' ≡ false

split-join_plain :
    (host port : Text)
    → IsAddr host port
    → contains host b':' ≡ false
    → split_host_port (host ++ b':' ∷ port) ≡ ok (host, port)
unfolding split_host_port contains
split-join_plain [] port v f = ground (arith, cut-append [] port b':')
split-join_plain (c ∷ host) port v f = ground (
  arith,
  cut-append (c ∷ host) port b':',
  contains-append host (b':' ∷ port) b'[',
  contains-append host (b':' ∷ port) b']',
)

split-join_bracketed :
    (host port : Text)
    → IsAddr host port
    → split_host_port (b'[' ∷ host ++ b']' ∷ b':' ∷ port) ≡ ok (host, port)
unfolding split_host_port contains
split-join_bracketed host port v =
    ground
      (arith, cut-append host (b':' ∷ port) b']', contains-append host (b']' ∷ b':' ∷ port) b':')

pub split_host_port-join_host_port :
    (host port : Text)
    → IsAddr host port
    → split_host_port (join_host_port host port) ≡ ok (host, port)
unfolding join_host_port
split_host_port-join_host_port host port v =
    ground (arith, split-join_plain host port, split-join_bracketed host port)

cut_longer :
    (host a b port : Text)
    → host ≡ a ++ b':' ∷ b
    → contains a b':' ≡ false
    → cut (host ++ b':' ∷ port) b':' ≡ some (a, b ++ b':' ∷ port)
cut_longer host a b port e f =
    rw (e, append_assoc a (b':' ∷ b) (b':' ∷ port)) (cut-append a (b ++ b':' ∷ port) b':' f)

-- A host with colons that is not put in brackets makes an address with too many of them.
pub split_host_port-colons :
    (host port : Text)
    → contains host b':' ≡ true
    → contains host b'[' ≡ false
    → split_host_port (host ++ b':' ∷ port) ≡ err too_many_colons
unfolding split_host_port contains
split_host_port-colons [] port h o = absurd (cc)
split_host_port-colons (c ∷ host) port h o =
    let (a, b, e) = contains→cut (c ∷ host) b':' h in
    let (joined, first) = cut-some (c ∷ host) b':' a b e in
    ground (arith, cut_longer (c ∷ host) a b port joined first, contains_middle b port b':')
