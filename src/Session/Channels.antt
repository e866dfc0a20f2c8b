-- ===== src/Session/Channels.antt =====
-- ssh/session/session_minimal.go: seats, the channels of a seat, and Finish.
use mini_shellhub.Prelude.{
  ℕ, ◌+◌, ◌%◌, ◌^◌, Text, ◌++◌, Option, none, some, Bool, true, false, codes, lookup, insert,
  nat_key,
}
use mini_shellhub.Session.Types.{
  Session, seat_already_set, agent_client_not_established, accept_failed, open_channel_failed, M,
  ◌>>=◌, ◌>>◌, pure, fail, load, store_session,
}

-- `Seats.NewSeat`, on the bit pattern of an `int` of 64 bits.
unfoldable pub new_seat : ℕ → M ℕ
unfolding load store_session
new_seat p = do
  s ← load p
  store_session p (record s { next_seat = (s.next_seat + 1) % 2 ^ 64 })
  pure s.next_seat

-- `Seats.SetPty` and `Seats.Get` keep nothing: every seat is there, without a terminal.
pub record Seat : Type 0 where
  pub has_pty : Bool

unfoldable pub set_pty : ℕ → ℕ → Bool → M (Unit {0})
set_pty p seat has = pure tt

unfoldable pub get_seat : ℕ → Seat × Bool
get_seat seat = (record { has_pty = false }, true)

unfoldable pub set_client_channel : ℕ → ℕ → Session → Session
set_client_channel seat channel s = record s {
  client = record (s.client) { channels = insert seat channel s.client.channels };
}

unfoldable pub set_agent_channel : ℕ → ℕ → Session → Session
set_agent_channel seat channel s = record s {
  agent = record (s.agent) { channels = insert seat channel s.agent.channels };
}

client_accepted : ℕ → ℕ → Session → Option ℕ → M ℕ
unfolding store_session set_client_channel
client_accepted p seat s none = fail accept_failed
client_accepted p seat s (some channel) = do
  store_session p (set_client_channel seat channel s)
  pure channel

client_channel_at : Option ℕ → ℕ → ℕ → Session → Option ℕ → M ℕ
unfolding client_accepted
client_channel_at (some _) p seat s accepted = fail seat_already_set
client_channel_at none p seat s accepted = client_accepted p seat s accepted

-- `accepted` is what the SSH library's `Accept` returns.
unfoldable pub new_client_channel : Option ℕ → ℕ → ℕ → M ℕ
unfolding client_channel_at load
new_client_channel accepted p seat = do
  s ← load p
  client_channel_at (lookup seat s.client.channels) p seat s accepted

agent_opened : ℕ → ℕ → Session → Option ℕ → M ℕ
unfolding store_session set_agent_channel
agent_opened p seat s none = fail open_channel_failed
agent_opened p seat s (some channel) = do
  store_session p (set_agent_channel seat channel s)
  pure channel

agent_client_at : (ℕ → Option ℕ) → Option ℕ → ℕ → ℕ → Session → M ℕ
unfolding agent_opened
agent_client_at opens none p seat s = fail agent_client_not_established
agent_client_at opens (some client) p seat s = agent_opened p seat s (opens client)

agent_channel_at : (ℕ → Option ℕ) → Option ℕ → ℕ → ℕ → Session → M ℕ
unfolding agent_client_at
agent_channel_at opens (some _) p seat s = fail seat_already_set
agent_channel_at opens none p seat s = agent_client_at opens s.agent.client p seat s

-- `opens` is what the SSH library's `OpenChannel` returns for a client.
unfoldable pub new_agent_channel : (ℕ → Option ℕ) → ℕ → ℕ → M ℕ
unfolding agent_channel_at load
new_agent_channel opens p seat = do
  s ← load p
  agent_channel_at opens (lookup seat s.agent.channels) p seat s

-- The request that `Finish` writes on the agent's connection, if there is one.
pub record CloseRequest : Type 0 where
  pub method : Text
  pub path : Text

unfoldable pub finish : ℕ → M (Option CloseRequest)
unfolding load
finish p = do
  s ← load p
  pure (elim s.agent.conn [
    | none ↦ none
    | some conn ↦ some (record { method = codes "DELETE"; path = codes "/ssh/close/" ++ s.uid })
  ])
