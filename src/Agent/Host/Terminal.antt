-- ===== src/Agent/Host/Terminal.antt =====
-- agent/pkg/agent/server/modes/host/pty.go: opening a terminal for a command, and the sizes that it gets;
-- and the terminal of Exec (sessioner.go). What the terminal library's Open and the command's Start
-- return are parameters.
pub mod Laws
pub mod Output
use mini_shellhub.Prelude.{
  ℕ, ◌%◌, ◌^◌, ◌==◌, List, [], ◌∷◌, map, Bool, true, false, Option, none, some, if◌then◌else◌,
}

-- What is set of a command: its three files and the attributes Setsid and Setctty.
pub record Attached : Type 0 where
  pub stdin : Option ℕ
  pub stdout : Option ℕ
  pub stderr : Option ℕ
  pub setsid : Bool
  pub setctty : Bool

-- The files that were opened and not closed.
pub record Opened : Type 0 where
  pub cmd : Attached
  pub open_files : List ℕ
  -- The terminal's two ends, for the caller; none is an error.
  pub ends : Option (ℕ × ℕ)

or_tty : Option ℕ → ℕ → Option ℕ
or_tty none tty = some tty
or_tty (some file) tty = some file

unfoldable pub attach : ℕ → Attached → Attached
unfolding or_tty
attach tty c = record {
  stdin = or_tty c.stdin tty;
  stdout = or_tty c.stdout tty;
  stderr = or_tty c.stderr tty;
  setsid = true;
  setctty = true;
}

unfoldable pub close_file : ℕ → List ℕ → List ℕ
close_file f [] = []
close_file f (g ∷ fs) = let rest = close_file f fs in if f == g then rest else g ∷ rest

-- The deferred `tty.Close` runs on every way out.
unfoldable pub open_pty : Option (ℕ × ℕ) → (Attached → Bool) → Attached → Opened
unfolding attach close_file
open_pty none starts c = record { cmd = c; open_files = []; ends = none }
open_pty (some (ptmx, tty)) starts c =
    let c' = attach tty c in
    if starts c'
    then record { cmd = c'; open_files = close_file tty (ptmx ∷ tty ∷ []); ends = some (ptmx, tty) }
    else record {
      cmd = c';
      open_files = close_file tty (close_file ptmx (ptmx ∷ tty ∷ []));
      ends = none;
    }

unfoldable pub init_pty : Option (ℕ × ℕ) → Attached → Opened
unfolding attach
init_pty none c = record { cmd = c; open_files = []; ends = none }
init_pty (some (pty, tty)) c = record {
  cmd = attach tty c;
  open_files = pty ∷ tty ∷ [];
  ends = some (pty, tty);
}

-- The deferred calls of Exec; closing a nil file does nothing.
close_ends : Option (ℕ × ℕ) → List ℕ → List ℕ
unfolding close_file
close_ends none fs = fs
close_ends (some (pty, tty)) fs = close_file tty (close_file pty fs)

-- Exec of a session with a terminal: the command as it is started, though no terminal may have been
-- there, and the files that are open when Exec has returned, on whichever way.
unfoldable pub exec_terminal : Option (ℕ × ℕ) → Attached → Attached × List ℕ
unfolding init_pty close_ends
exec_terminal opens c =
    let opened = init_pty opens c in (opened.cmd, close_ends opened.ends opened.open_files)

pub record Window : Type 0 where
  pub width : ℕ
  pub height : ℕ

pub record Winsize : Type 0 where
  pub rows : ℕ
  pub cols : ℕ

-- `uint16(win.Height)` and `uint16(win.Width)`.
unfoldable pub winsize : Window → Winsize
winsize win = record { rows = win.height % 2 ^ 16; cols = win.width % 2 ^ 16 }

-- The goroutine over the window's changes: the sizes that are set, in order.
unfoldable pub window_loop : List Window → List Winsize
unfolding winsize
window_loop wins = map winsize wins
