-- ===== src/Channels/Pipes/Relay.antt =====
-- agent/pkg/agent/server/modes/host/sessioner.go and ssh/server/channels/utils.go together: a command's
-- output on its way through the agent's Exec and the server's pipe to the client.
use mini_shellhub.Prelude.{
  here, Bool, ℕ, ◌<◌, ◌≤◌, List, [], ◌∷◌, ◌++◌, Text, ◌≡◌, refl, ap, ◌∙◌, some, arith, length,
  append-nil,
}
use mini_shellhub.Agent.Config.{ℤ}
use mini_shellhub.Copies.{Stream, stdout, window, front}
use mini_shellhub.Copies.Laws.{out_bytes, err_bytes}
use mini_shellhub.Agent.Host.Running.{Running, ExecReach}
use mini_shellhub.Agent.Host.Running
use mini_shellhub.Agent.Host.Running.Laws.{exec_exits_iff, exec_exited-copied}
use mini_shellhub.Channels.Pipes.{AgentEnd}
use mini_shellhub.Channels.Pipes.Threads.{Pipe, PipeReach, HasReturned}
use mini_shellhub.Channels.Pipes.Threads
use mini_shellhub.Channels.Pipes.Delivery.{pipe_delivers}

-- Exec copies all that it reads to its channel's standard output.
abbrev pub on_stdout : Text → List (Stream × ℕ)
on_stdout [] = []
on_stdout (b ∷ bytes) = (stdout, b) ∷ on_stdout bytes

out_bytes-on_stdout : (bytes : Text) → out_bytes (on_stdout bytes) ≡ bytes
out_bytes-on_stdout [] = refl
out_bytes-on_stdout (b ∷ bytes) = ap (λ rest. b ∷ rest) (out_bytes-on_stdout bytes)

err_bytes-on_stdout : (bytes : Text) → err_bytes (on_stdout bytes) ≡ []
err_bytes-on_stdout [] = refl
err_bytes-on_stdout (b ∷ bytes) = err_bytes-on_stdout bytes

-- With pipes that hold a byte each, a command that is run without a terminal and whose standard error,
-- as far as it is written before standard output has ended, fits in one pipe, can run to its exit status, and the server's pipe can then return, with the command's
-- whole output followed by its whole standard error at the client, and what the client sends at the
-- agent, where the client's own standard error is less than a window.
pub exec_output_arrives :
    (early : Bool) (capacity size : ℕ) (code : ℤ) (ended : AgentEnd)
    (script client : List (Stream × ℕ))
    → 0 < capacity
    → length (err_bytes (front early script)) ≤ capacity
    → length (err_bytes client) < size
    → (r : Running) × (p : Pipe) × ExecReach early capacity code (Running.begin script) r
      × (r.exit ≡ some code)
      × PipeReach (window size) ended (Threads.begin (on_stdout r.copy.copied) client) p
      × HasReturned p
      × (p.to_client.copied ≡ out_bytes script ++ err_bytes script)
      × (p.to_agent.copied ≡ out_bytes client ++ err_bytes client)
exec_output_arrives early capacity size code ended script client h k l =
    let (r, run, exit) = (exec_exits_iff early capacity code script h).1 k in
    let bytes = r.copy.copied in
    let quiet = ap length (err_bytes-on_stdout bytes) in
    let (p, reach, returned, out, sent, e) =
      pipe_delivers size (on_stdout bytes) client ended (omega (arith, quiet, l), l) here in
    (
      r,
      p,
      run,
      exit,
      reach,
      returned,
      out
          ∙ (ap (λ x. x ++ err_bytes (on_stdout bytes)) (out_bytes-on_stdout bytes)
              ∙ (ap (λ x. bytes ++ x) (err_bytes-on_stdout bytes)
                  ∙ (append-nil bytes ∙ exec_exited-copied script run λ n. ground (arith, exit)))),
      sent,
    )
