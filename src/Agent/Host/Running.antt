-- ===== src/Agent/Host/Running.antt =====
-- agent/pkg/agent/server/modes/host/sessioner.go: a started command of Exec or Heredoc, without a
-- terminal, and the goroutine that copies its output. Its pipes have the capacity that the operating
-- system gives them; the command can close its standard output before it ends.
pub mod Laws
use mini_shellhub.Prelude.{Reach, Bool, ℕ, List, [], Text, ◌≡◌, Option, none, some}
use mini_shellhub.Agent.Config.{ℤ}
use mini_shellhub.Copies.{Stream, Copy, pipes, IsDone}
use mini_shellhub.Copies

pub record Running : Type 0 where
  pub copy : Copy
  -- The exit status that was sent to the client.
  pub exit : Option ℤ

unfoldable pub begin : List (Stream × ℕ) → Running
begin script = record { copy = Copies.start script; exit = none }

module _ (early : Bool) (capacity : ℕ) (code : ℤ) where
  -- Exec waits for the copy (`wg.Wait`) before it waits for the command and sends its status.
  pub data ExecStep (r : Running) : Running → Type 0 where
    exec_copies :
        {d : Copy}
        → r.exit ≡ none
        → Copies.Step (pipes early capacity) r.copy d
        → ExecStep r (record r { copy = d })
    exec_exits : IsDone r.copy → ExecStep r (record r { exit = some code })

  -- Heredoc waits for the command only. `Wait` closes the reading ends of the pipes once the command has
  -- ended, as its documentation says, and what they hold is gone.
  pub data HeredocStep (r : Running) : Running → Type 0 where
    heredoc_copies :
        {d : Copy}
        → r.exit ≡ none
        → Copies.Step (pipes early capacity) r.copy d
        → HeredocStep r (record r { copy = d })
    heredoc_exits :
        r.copy.todo ≡ []
        → HeredocStep r (record {
          copy = record (r.copy) { out_buffer = []; err_buffer = [] };
          exit = some code;
        })

abbrev pub ExecReach : Bool → ℕ → ℤ → Running → Running → Type 0
ExecReach early capacity code = Reach (ExecStep early capacity code)

abbrev pub HeredocReach : Bool → ℕ → ℤ → Running → Running → Type 0
HeredocReach early capacity code = Reach (HeredocStep early capacity code)
