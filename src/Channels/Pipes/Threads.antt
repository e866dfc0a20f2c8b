-- ===== src/Channels/Pipes/Threads.antt =====
-- ssh/server/channels/utils.go: the two goroutines of pipe and of hose. Each copies one direction, the
-- data and then the standard error of one side, and then closes. `room` is the room that the channels'
-- windows leave.
use mini_shellhub.Prelude.{Reach, ℕ, List, ◌≡◌, ◌≢◌, Bool, true, false, Option, none, some}
use mini_shellhub.Copies.{Stream, Copy, Room, IsDone}
use mini_shellhub.Copies
use mini_shellhub.Channels.Pipes.{AgentEnd, closes_write}

pub record Pipe : Type 0 where
  pub to_client : Copy
  pub to_agent : Copy
  -- The send on `done` has been received.
  pub signalled : Bool
  pub client_closed : Bool
  -- What was done to the agent's channel when the client's data had ended.
  pub agent_ended : Option AgentEnd

unfoldable pub begin : List (Stream × ℕ) → List (Stream × ℕ) → Pipe
begin agent client = record {
  to_client = Copies.start agent;
  to_agent = Copies.start client;
  signalled = false;
  client_closed = false;
  agent_ended = none;
}

module _ (room : Room) (agent_end : AgentEnd) where
  pub data PipeStep (p : Pipe) : Pipe → Type 0 where
    pipes_agent :
        {d : Copy} → Copies.Step room p.to_client d → PipeStep p (record p { to_client = d })
    pipes_client :
        {d : Copy} → Copies.Step room p.to_agent d → PipeStep p (record p { to_agent = d })
    -- The deferred calls of the first goroutine, the last first: the send, then CloseWrite.
    signals : IsDone p.to_client → PipeStep p (record p { signalled = true })
    closes_client : p.signalled ≡ true → PipeStep p (record p { client_closed = true })
    closes_agent : IsDone p.to_agent → PipeStep p (record p { agent_ended = some agent_end })

abbrev pub PipeReach : Room → AgentEnd → Pipe → Pipe → Type 0
PipeReach room agent_end = Reach (PipeStep room agent_end)

module _ (room : Room) where
  -- The goroutines of hose close only their own direction, and signal nobody.
  pub data HoseStep (p : Pipe) : Pipe → Type 0 where
    hoses_agent :
        {d : Copy} → Copies.Step room p.to_client d → HoseStep p (record p { to_client = d })
    hoses_client :
        {d : Copy} → Copies.Step room p.to_agent d → HoseStep p (record p { to_agent = d })
    closes_client : IsDone p.to_client → HoseStep p (record p { client_closed = true })
    closes_agent : IsDone p.to_agent → HoseStep p (record p { agent_ended = some closes_write })

abbrev pub HoseReach : Room → Pipe → Pipe → Type 0
HoseReach room = Reach (HoseStep room)

-- `wg.Wait()` of either is over.
pub record HasReturned (p : Pipe) : Type 0 where
  pub client : p.client_closed ≡ true
  pub agent : p.agent_ended ≢ none
