-- ===== src/Net.antt =====
-- Go's net.SplitHostPort and net.JoinHostPort, which ssh/pkg/host/host.go, ssh/server/channels/tcpip.go
-- and agent/pkg/agent/agent.go call on addresses.
pub mod Laws
use mini_shellhub.Prelude.{
  Text, [], ◌∷◌, ◌++◌, ◌==◌, ◌||◌, none, some, Result, ok, err, contains, cut, if◌then◌else◌,
}

pub data AddrError : Type 0 where
  missing_port too_many_colons missing_bracket unexpected_bracket : AddrError

-- The port behind a bracketed host: a colon must follow the bracket, and be the last one.
bracketed : Text → Text → Result AddrError (Text × Text)
bracketed host [] = err missing_port
bracketed host (c ∷ port) =
    if c == b':'
    then if contains port b':'
      then err too_many_colons
      else if contains host b'[' || contains port b'[' || contains port b']'
      then err unexpected_bracket
      else ok (host, port)
    else err missing_port

plain : Text → Result AddrError (Text × Text)
plain s = elim (cut s b':') [
  | none ↦ err missing_port
  | some (host, port) ↦
      if contains port b':'
      then err too_many_colons
      else if contains s b'[' || contains s b']'
      then err unexpected_bracket
      else ok (host, port)
]

unfoldable pub split_host_port : Text → Result AddrError (Text × Text)
unfolding bracketed plain
split_host_port [] = err missing_port
split_host_port (c ∷ s) =
    if c == b'['
    then if contains s b':'
      then elim (cut s b']') [
        | none ↦ err missing_bracket
        | some (host, rest) ↦ bracketed host rest
      ]
      else err missing_port
    else plain (c ∷ s)

unfoldable pub join_host_port : Text → Text → Text
join_host_port host port =
    if contains host b':' then b'[' ∷ host ++ b']' ∷ b':' ∷ port else host ++ b':' ∷ port
