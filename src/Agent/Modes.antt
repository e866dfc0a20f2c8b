-- ===== src/Agent/Modes.antt =====
-- agent/pkg/agent/server/modes/modes.go: what the agent's SSH server asks of its mode for a session, and
-- how the handler of a session (server/session.go) calls it. `R` is what an operation does and returns;
-- SFTP is a subsystem of its own (Host/Sftp).
use mini_shellhub.Prelude.{Option, none, some}
use mini_shellhub.Agent.Server.{
  Platform, Session, Run, runs_shell, runs_heredoc, runs_exec, session_handler,
}

pub record Sessioner {ℓ} (R : Type ℓ) : Type ℓ where
  pub shell : Session → R
  pub heredoc : Session → R
  pub exec : Session → R

module _ {ℓ} {R : Type ℓ} (mode : Sessioner R) (nothing : R) where
  run_mode : Run × Session → R
  run_mode (runs_shell, s) = mode.shell s
  run_mode (runs_heredoc, s) = mode.heredoc s
  run_mode (runs_exec, s) = mode.exec s

  run_if : Option (Run × Session) → R
  unfolding run_mode
  run_if none = nothing
  run_if (some run) = run_mode run

  -- The handler of a session; `nothing` is what it does where it returns early.
  unfoldable pub handle_session : Platform → Session → R
  unfolding run_if
  handle_session p s = run_if (session_handler p s)
