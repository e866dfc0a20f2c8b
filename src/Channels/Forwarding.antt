-- ===== src/Channels/Forwarding.antt =====
-- ssh/server/channels/tcpip.go, DefaultDirectTCPIPHandler: local port forwarding, up to the two copies
-- of data. What the SSH library reads of the channel's data, and what its Dial and Accept return, are
-- parameters; its Dial is called on a pointer, which may be nil.
pub mod Laws
pub mod Crashing
use mini_shellhub.Prelude.{
  ℕ, Text, Bool, true, false, Option, none, some, Result, ok, err, panic, not, if◌then◌else◌,
  format_int,
}
use mini_shellhub.Net.{join_host_port}
use mini_shellhub.Session.Types.{
  Context, Session, SessionError, M, and_then, ◌>>=◌, pure, lift, deref, load,
}
use mini_shellhub.Session.Operations.{obtain_session}

pub record ChannelData : Type 0 where
  pub dest_addr : Text
  pub dest_port : ℕ
  pub origin_addr : Text
  pub origin_port : ℕ

pub data Refusal : Type 0 where
  bad_data forwarding_disabled dial_failed accept_failed : Refusal

-- The channel was refused, or data is copied between the agent's and the client's side.
pub data Forwarding : Type 0 where
  refused : Refusal → Forwarding
  forwarded : ℕ → ℕ → Forwarding

-- `LocalPortForwardingCallback`, which may be nil.
abbrev pub Callback : Type 0
Callback = Option (Text → ℕ → Bool)

-- `Client.Dial`, of a client that may be nil; its error carries nothing. An address that does not split, or
-- a port that is too large, is an error before the client is read.
abbrev pub DialTcp : Type 0
DialTcp = Option ℕ → Text → Result (Unit {0}) ℕ

permits : Callback → ChannelData → Bool
permits none d = false
permits (some callback) d = callback d.dest_addr d.dest_port

unfoldable pub destination : ChannelData → Text
destination d = join_host_port d.dest_addr (format_int d.dest_port)

accept_result : ℕ → Option ℕ → Forwarding
accept_result agent none = refused accept_failed
accept_result agent (some client) = forwarded agent client

dial_result : Option ℕ → Result (Unit {0}) ℕ → Result SessionError Forwarding
unfolding accept_result
dial_result accepted (ok agent) = ok (accept_result agent accepted)
dial_result accepted (err _) = ok (refused dial_failed)
dial_result accepted panic = panic

with_data :
    Callback → Option ChannelData → DialTcp → Option ℕ → Session → Result SessionError Forwarding
unfolding permits dial_result destination
with_data callback none dial accepted s = ok (refused bad_data)
with_data callback (some d) dial accepted s =
    if not (permits callback d)
    then ok (refused forwarding_disabled)
    else dial_result accepted (dial s.agent.client (destination d))

-- The handler logs fields of the session before anything else: a nil session panics.
unfoldable pub direct_tcpip_handler :
    Callback → Option ChannelData → DialTcp → Option ℕ → M Forwarding
unfolding with_data obtain_session load
direct_tcpip_handler callback data' dial accepted = do
  found ← obtain_session
  p ← lift (deref found.0)
  s ← load p
  lift (with_data callback data' dial accepted s)
