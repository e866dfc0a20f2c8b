-- ===== src/Channels/Shutdown.antt =====
-- ssh/server/channels/session.go and the first goroutine of pipe in utils.go: how the goroutines of a
-- session channel end. The handler returns when its three loops have; the loop over the agent's
-- requests first receives from the channel `done`, on which only a started pipe sends.
pub mod Ending
use mini_shellhub.Prelude
use mini_shellhub.Prelude.{Bool, true, false, List, [], ◌≡◌, if◌then◌else◌}
use mini_shellhub.Channels.Requests.{Bridge, Incoming, on_client_request, on_agent_request}

-- The loop over the agent's requests: in its loop, in its deferred receive, or returned.
pub data AgentPhase : Type 0 where
  reading awaiting returned : AgentPhase

-- The goroutine that copies the agent's data: before its start, copying, sending on `done`, or ended.
pub data PipePhase : Type 0 where
  absent copying signalling ended : PipePhase

pub record Threads : Type 0 where
  pub bridge : Bridge
  pub global_returned : Bool
  pub client_returned : Bool
  pub agent_phase : AgentPhase
  pub pipe_phase : PipePhase

-- `go pipe(…)`, when the client's loop has just set off the pipe for the first time.
unfoldable pub pipe_after : Bool → Bool → PipePhase → PipePhase
pipe_after false true phase = copying
pipe_after _ _ phase = phase

unfoldable pub reads_request : Incoming → Threads → Threads
unfolding pipe_after
reads_request i t =
    let b = on_client_request t.bridge i in
    record t {
      bridge = b;
      pipe_phase = pipe_after t.bridge.pipe_started b.pipe_started t.pipe_phase;
    }

pub data Step (t : Threads) : Threads → Type 0 where
  -- A loop returns when its requests are closed or the context is done.
  global_returns : Step t (record t { global_returned = true })
  client_returns : Step t (record t { client_returned = true })
  agent_leaves : t.agent_phase ≡ reading → Step t (record t { agent_phase = awaiting })
  client_requests : (i : Incoming) → t.client_returned ≡ false → Step t (reads_request i t)
  agent_requests :
      (i : Incoming)
      → t.agent_phase ≡ reading
      → Step t (record t { bridge = on_agent_request t.bridge i })
  -- The agent's data ends; then the send and the receive on `done` meet.
  copy_ends : t.pipe_phase ≡ copying → Step t (record t { pipe_phase = signalling })
  meets :
      t.pipe_phase ≡ signalling
      → t.agent_phase ≡ awaiting
      → Step t (record t { pipe_phase = ended; agent_phase = returned })

abbrev pub Reach : Threads → Threads → Type 0
Reach = Prelude.Reach Step

-- `wg.Wait()` is over.
pub record IsDone (t : Threads) : Type 0 where
  pub global : t.global_returned ≡ true
  pub client : t.client_returned ≡ true
  pub agent : t.agent_phase ≡ returned

unfoldable pub start : Threads
start = record {
  bridge = record {
    pipe_started = false;
    session_type = [];
    agent_requested = false;
    forwarders = 0;
    to_agent = [];
    to_client = [];
    client_replies = [];
    agent_replies = [];
    global_replies = [];
    rejects = [];
  };
  global_returned = false;
  client_returned = false;
  agent_phase = reading;
  pipe_phase = absent;
}
