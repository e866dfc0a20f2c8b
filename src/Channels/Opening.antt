-- ===== src/Channels/Opening.antt =====
-- ssh/server/channels/session.go, DefaultSessionHandler up to its loops: the two channels of a seat.
pub mod Laws
pub mod Arriving
pub mod Crashing
use mini_shellhub.Prelude.{
  ℕ, ◌+◌, ◌%◌, ◌^◌, Text, Option, Bool, true, false, codes, Result, ok, err, panic,
}
use mini_shellhub.Session.Types.{
  Context, SessionError, M, and_then, on_error, ◌>>=◌, ◌>>◌, pure, deref, lift, load, store_session,
}
use mini_shellhub.Session.Operations.{obtain_session}
use mini_shellhub.Session.Channels.{new_seat, new_client_channel, new_agent_channel}

-- Both channels are there, or the opening was rejected with a message; then the flag says whether
-- the client's channel had been accepted, and is closed by its deferred call.
pub data Opening : Type 0 where
  opened : ℕ → ℕ → ℕ → Opening
  rejected : Text → Bool → Opening

open_agent : (ℕ → Option ℕ) → ℕ → ℕ → ℕ → M Opening
open_agent opens p seat client c =
    on_error (new_agent_channel opens p seat c)
      (rejected (codes "failed to open the session channel on agent") true)
      λ agent. pure (opened seat client agent)

unfoldable pub open_client : Option ℕ → (ℕ → Option ℕ) → ℕ → ℕ → M Opening
unfolding open_agent
open_client accepted opens p seat c =
    on_error (new_client_channel accepted p seat c)
      (rejected (codes "failed to accept the channel opening") false) (open_agent opens p seat)

-- The handler reads the session's fields for its log before anything else: a nil session panics.
unfoldable pub open_session_channel : Option ℕ → (ℕ → Option ℕ) → M Opening
unfolding open_client
open_session_channel accepted opens = do
  found ← obtain_session
  p ← lift (deref found.0)
  λ c.
      on_error (new_seat p c)
        (rejected (codes "failed to create a new seat on the SSH session") false)
        (open_client accepted opens p)

-- A handler that overlaps with others of the same client: its NewSeat has read the counter before (`seat`),
-- and writes what it has read, plus one.
unfoldable pub open_overlapping : ℕ → Option ℕ → (ℕ → Option ℕ) → M Opening
unfolding open_client store_session load
open_overlapping seat accepted opens = do
  found ← obtain_session
  p ← lift (deref found.0)
  s ← load p
  store_session p (record s { next_seat = (seat + 1) % 2 ^ 64 })
  open_client accepted opens p seat
