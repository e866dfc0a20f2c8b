-- ===== src/Channels/Pipes.antt =====
-- ssh/server/channels/utils.go, pipe: how each direction's copy ends, and the channels that are then
-- closed. The comparison of versions is the semver library's.
pub mod Threads
pub mod Recording
pub mod Returning
pub mod Delivery
pub mod Relay
use mini_shellhub.Prelude.{
  Text, Bool, true, false, Option, none, some, ◌≡◌, codes, text_eq, arith, ◌&&◌, if◌then◌else◌,
  Option-cases, inl, inr,
}
use mini_shellhub.Host.{Host}
use mini_shellhub.Target.{Target}
use mini_shellhub.Session.Types.{Context, SessionData}
use mini_shellhub.Session.Operations.{fresh_session}
use mini_shellhub.Channels.Requests.{exec_request_type}

-- Whether a version is less than v0.9.3; none where it is no version.
abbrev pub IsOld : Type 0
IsOld = Text → Option Bool

pub data AgentEnd : Type 0 where
  closes closes_write : AgentEnd

end_by_version : Option Bool → Text → AgentEnd
end_by_version none kind = closes_write
end_by_version (some old) kind =
    if old && text_eq kind exec_request_type then closes else closes_write

-- What is done to the agent's channel when the client's data has ended.
unfoldable pub agent_end : IsOld → SessionData → AgentEnd
unfolding end_by_version
agent_end is_old s = end_by_version (is_old s.device.version) s.session_type

-- The agent's channel is closed whole only for a command on an agent whose version is old.
pub agent_end-closes :
    (is_old : IsOld) (s : SessionData)
    → agent_end is_old s ≡ closes
    → (is_old s.device.version ≡ some true) × (text_eq s.session_type exec_request_type ≡ true)
unfolding agent_end
agent_end-closes is_old s h = elim (Option-cases (is_old s.device.version)) [
  | inl e ↦ absurd (ground arith)
  | inr (old, e) ↦ (ground arith, ground arith)
]

-- Since v0.9.3 is not less than itself, a session that NewSession made, whatever it runs, closes only
-- its own direction.
pub agent_end-fresh_session :
    (is_old : IsOld) (c : Context) (h : Host) (t : Target) (kind : Text)
    → is_old (codes "v0.9.3") ≡ some false
    → agent_end is_old (record ((fresh_session c h t).info) { session_type = kind }) ≡ closes_write
unfolding agent_end fresh_session
agent_end-fresh_session is_old c h t kind e = ground arith
