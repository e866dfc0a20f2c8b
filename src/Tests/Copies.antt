-- ===== src/Tests/Copies.antt =====
-- What is copied between a command, the agent, the server and its client.
use mini_shellhub.Prelude.{
  here, next, ℕ, ◌*◌, ◌≤◌, List, [], ◌∷◌, ◌≡◌, ◌⊎◌, ◌↔◌, refl, some, length, arith, ◌≢◌,
}
use mini_shellhub.Agent.Config.{pos}
use mini_shellhub.Copies.{Stream, stdout, stderr, Copy, pipes, window, Step, IsDone, start}
use mini_shellhub.Copies.Laws.{err_bytes, steps}
use mini_shellhub.Copies.Ending.{copies_terminate}
use mini_shellhub.Agent.Host.Running.{Running, begin, ExecReach, HeredocReach}
use mini_shellhub.Agent.Host.Running
use mini_shellhub.Agent.Host.Running.Laws.{exec_exits_iff}
use mini_shellhub.Channels.Pipes.{closes_write}
use mini_shellhub.Channels.Pipes.Relay.{on_stdout, exec_output_arrives}
use mini_shellhub.Prelude.{true, false}
use mini_shellhub.Relays.{Relay, after_both, after_first}
use mini_shellhub.Relays
use mini_shellhub.Relays.Closing.{CanClose, after_both-closes_iff, after_first-loses}
use mini_shellhub.Channels.Pipes.Threads.{Pipe, PipeReach, pipes_agent, HoseReach, HasReturned}
use mini_shellhub.Channels.Pipes.Threads
use mini_shellhub.Channels.Pipes.Delivery.{pipe_delivers}
use mini_shellhub.Copies.{writes_err, front}

abbrev script : List (Stream × ℕ)
script = (stderr, 69) ∷ (stdout, 79) ∷ []

abbrev first_written : Copy
first_written = record {
  todo = (stdout, 79) ∷ [];
  out_buffer = [];
  err_buffer = 69 ∷ [];
  copied = [];
}

writes : Step (pipes false 1) (start script) first_written
unfolding start
writes = writes_err 69 ((stdout, 79) ∷ []) refl refl

copies_terminate_example :
    (steps (next here writes) ≤ 2 * length script)
    × (IsDone first_written ⊎ ((d : Copy) × Step (pipes false 1) first_written d))
copies_terminate_example =
    copies_terminate false 1 script (next here writes) (omega arith) (omega arith)

exec_exits_iff_example :
    ((r : Running) × ExecReach false 1 (pos 3) (Running.begin script) r × (r.exit ≡ some (pos 3)))
    ↔ (length (err_bytes (front false script)) ≤ 1)
exec_exits_iff_example = exec_exits_iff false 1 (pos 3) script (omega arith)

pipe_delivers_example :
    (q : Pipe) × PipeReach (window 2) closes_write (Threads.begin script []) q
    × HasReturned q
    × (q.to_client.copied ≡ 79 ∷ 69 ∷ [])
    × (q.to_agent.copied ≡ [])
    × (q.agent_ended ≡ some closes_write)
pipe_delivers_example = pipe_delivers 2 script [] closes_write (omega arith, omega arith) here

exec_output_arrives_example :
    (r : Running) × (p : Pipe) × ExecReach false 1 (pos 3) (Running.begin script) r
    × (r.exit ≡ some (pos 3))
    × PipeReach (window 1) closes_write (Threads.begin (on_stdout r.copy.copied) []) p
    × HasReturned p
    × (p.to_client.copied ≡ 79 ∷ 69 ∷ [])
    × (p.to_agent.copied ≡ [])
exec_output_arrives_example =
    exec_output_arrives false 1 1 (pos 3) closes_write script [] (omega arith) (omega arith)
      (omega arith)

abbrev port : Relay
port = Relays.begin (79 ∷ []) (71 ∷ [])

after_both-closes_iff_example :
    CanClose after_both true port ↔ ((true ≡ false) ⊎ (port.to_agent.todo ≢ []))
after_both-closes_iff_example = after_both-closes_iff true (79 ∷ []) (71 ∷ []) port here refl refl

after_first-loses_example :
    (r : Relay) × Relays.Reach after_first false (Relays.begin (79 ∷ []) (71 ∷ [])) r
    × (r.closed ≡ true)
    × (r.to_agent.delivered ≡ 71 ∷ [])
    × (r.to_client.delivered ≡ [])
    × (r.to_client.todo ≡ 79 ∷ [])
after_first-loses_example = after_first-loses (79 ∷ []) (71 ∷ [])
