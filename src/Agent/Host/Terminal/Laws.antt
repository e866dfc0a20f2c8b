-- ===== src/Agent/Host/Terminal/Laws.antt =====
-- agent/pkg/agent/server/modes/host/pty.go: which files stay open, and what the command is given.
use mini_shellhub.Prelude.{
  ℕ, ◌^◌, ◌<◌, ◌==◌, ==_refl, [], ◌∷◌, ◌≡◌, ◌≢◌, ◌↔◌, ◌⊎◌, inl, inr, refl, Bool, true, false, none,
  some, arith, Bool-cases,
}
use mini_shellhub.Prelude.{==_iff}
use mini_shellhub.Agent.Host.Terminal.{
  Attached, attach, close_file, open_pty, init_pty, exec_terminal, Window, winsize,
}

-- A command with all its files, in a session of its own with the terminal as its controlling one.
pub record HasTerminal (c : Attached) : Type 0 where
  pub stdin : c.stdin ≢ none
  pub stdout : c.stdout ≢ none
  pub stderr : c.stderr ≢ none
  pub setsid : c.setsid ≡ true
  pub setctty : c.setctty ≡ true

attach-HasTerminal : (tty : ℕ) (c : Attached) → HasTerminal (attach tty c)
unfolding attach
attach-HasTerminal tty c = record {
  stdin = λ h. ground (arith);
  stdout = λ h. ground (arith);
  stderr = λ h. ground (arith);
  setsid = refl;
  setctty = refl;
}

-- However a terminal's two ends are numbered, openPty either fails and leaves nothing open, or it has
-- started the command with all its files and leaves the master's end open and the other closed.
pub open_pty-cases :
    (ptmx tty : ℕ) (starts : Attached → Bool) (c : Attached)
    → ptmx ≢ tty
    → let o = open_pty (some (ptmx, tty)) starts c in
      (starts o.cmd ≡ false) × (o.ends ≡ none) × (o.open_files ≡ [])
      ⊎ (starts o.cmd ≡ true)
        × (o.ends ≡ some (ptmx, tty))
        × (o.open_files ≡ ptmx ∷ [])
        × HasTerminal o.cmd
unfolding open_pty close_file
open_pty-cases ptmx tty starts c h = elim (Bool-cases (starts (attach tty c))) [
  | inl e ↦
      inr (ground (arith, attach-HasTerminal tty c, ==_iff tty ptmx, ==_refl tty, ==_refl ptmx))
  | inr e ↦ inl (ground (arith, ==_iff tty ptmx, ==_refl tty, ==_refl ptmx))
]

-- Exec closes both ends on every way out, and where a terminal was there its command has all its files.
pub exec_terminal-closes :
    (pty tty : ℕ) (c : Attached)
    → HasTerminal (exec_terminal (some (pty, tty)) c).0
      × ((exec_terminal (some (pty, tty)) c).1 ≡ [])
unfolding exec_terminal init_pty close_file
exec_terminal-closes pty tty c =
    (attach-HasTerminal tty c, ground (arith, ==_refl pty, ==_refl tty, Bool-cases (pty == tty)))

-- The terminal gets the window's size exactly if both of its sides fit 16 bits.
pub winsize_exact_iff :
    (win : Window)
    → (((winsize win).rows ≡ win.height) × ((winsize win).cols ≡ win.width))
      ↔ ((win.height < 2 ^ 16) × (win.width < 2 ^ 16))
unfolding winsize
winsize_exact_iff win = ground arith
