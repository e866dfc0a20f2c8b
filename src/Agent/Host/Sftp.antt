-- ===== src/Agent/Host/Sftp.antt =====
-- agent/pkg/agent/server/modes/host/sessioner.go, SFTP: the process that serves the subsystem, what can
-- fail on the way, and the copies of its two outputs. The system calls' results are parameters.
pub mod Laws
use mini_shellhub.Prelude.{
  Reach, ℕ, ◌+◌, ◌*◌, ◌<◌, ◌==◌, List, [], ◌∷◌, ◌++◌, Text, ◌≡◌, Bool, true, false, not, Result, ok,
  err, codes, length, ltb, if◌then◌else◌,
}
use mini_shellhub.Copies.{Stream, stdout, stderr, Copy}
use mini_shellhub.Copies

pub record Calls : Type 0 where
  pub stdin_pipe : Bool
  pub stdout_pipe : Bool
  pub stderr_pipe : Bool
  pub starts : Bool
  pub waits : Bool

-- What has happened when SFTP returns: whether the process was started, waited for, and the session
-- closed. It sends no exit status.
pub record Effects : Type 0 where
  pub started : Bool
  pub waited : Bool
  pub session_closed : Bool

closed_after : Bool → Bool → Effects
closed_after started waited = record { started = started; waited = waited; session_closed = true }

unfoldable pub sftp : Calls → Effects × Result Text (Unit {0})
unfolding closed_after
sftp o =
    if not o.stdin_pipe
    then (closed_after false false, err (codes "failed to get stdin pipe"))
    else if not o.stdout_pipe
    then (closed_after false false, err (codes "failed to get stdout pipe"))
    else if not o.stderr_pipe
    then (closed_after false false, err (codes "failed to get stderr pipe"))
    else if not o.starts
    then (closed_after false false, err (codes "failed to start command"))
    else if not o.waits
    then (closed_after true true, err (codes "failed to wait command"))
    else (closed_after true true, ok tt)

-- The started process and the goroutines that read its outputs, each its own pipe: one copies to the
-- session, the other logs line by line. `cmd.Wait` closes the pipes once the process has ended.
pub record Serving : Type 0 where
  pub copy : Copy
  -- How many bytes of its line the logging goroutine has read.
  pub line : ℕ
  pub waited : Bool

unfoldable pub begin : List (Stream × ℕ) → Serving
begin script = record { copy = Copies.start script; line = 0; waited = false }

-- `bufio.MaxScanTokenSize`: a Scanner reads no further once it has so many bytes without a newline.
abbrev pub line_limit : ℕ
line_limit = 64 * 1024

abbrev pub line_after : ℕ → ℕ → ℕ
line_after b line = if b == 10 then 0 else line + 1

module _ (capacity : ℕ) where
  pub data SftpStep (v : Serving) : Serving → Type 0 where
    serves_out :
        (b : ℕ) (rest : List (Stream × ℕ))
        → v.copy.todo ≡ (stdout, b) ∷ rest
        → ltb (length v.copy.out_buffer) capacity ≡ true
        → SftpStep v (record v {
          copy = record (v.copy) { todo = rest; out_buffer = v.copy.out_buffer ++ b ∷ [] };
        })
    serves_err :
        (b : ℕ) (rest : List (Stream × ℕ))
        → v.copy.todo ≡ (stderr, b) ∷ rest
        → ltb (length v.copy.err_buffer) capacity ≡ true
        → SftpStep v (record v {
          copy = record (v.copy) { todo = rest; err_buffer = v.copy.err_buffer ++ b ∷ [] };
        })
    copies_out :
        (b : ℕ) (rest : Text)
        → v.copy.out_buffer ≡ b ∷ rest
        → SftpStep v (record v {
          copy = record (v.copy) { out_buffer = rest; copied = v.copy.copied ++ b ∷ [] };
        })
    logs_err :
        (b : ℕ) (rest : Text)
        → v.line < line_limit
        → v.copy.err_buffer ≡ b ∷ rest
        → SftpStep v
            (record v { copy = record (v.copy) { err_buffer = rest }; line = line_after b v.line })
    process_ends :
        v.copy.todo ≡ []
        → SftpStep v (record v {
          copy = record (v.copy) { out_buffer = []; err_buffer = [] };
          waited = true;
        })

abbrev pub SftpReach : ℕ → Serving → Serving → Type 0
SftpReach capacity = Reach (SftpStep capacity)
