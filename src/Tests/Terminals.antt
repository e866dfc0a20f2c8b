-- ===== src/Tests/Terminals.antt =====
-- agent/pkg/agent/server/modes/host: terminals, and a process that serves files.
use mini_shellhub.Prelude.{here, ℕ, [], ◌∷◌, List, ◌≡◌, refl, true, false, arith}
use mini_shellhub.Copies.{Stream, stdout, stderr}
use mini_shellhub.Agent.Host.Terminal.{Window, winsize}
use mini_shellhub.Agent.Host.Sftp.{Serving, begin, SftpReach}
use mini_shellhub.Agent.Host.Sftp.Laws.{HasShortLines, sftp_ends}
use mini_shellhub.Copies.Laws.{err_bytes}

abbrev wide : Window
wide = record { width = 70000; height = 24 }

wide_wraps : winsize wide ≡ record { rows = 24; cols = 4464 }
unfolding winsize
wide_wraps = refl

abbrev script : List (Stream × ℕ)
script = (stderr, 69) ∷ (stderr, 70) ∷ (stdout, 79) ∷ []

short_lines : HasShortLines 0 (err_bytes script)
short_lines = (omega arith, (omega arith, tt))

begins_unwaited : (begin script).waited ≡ false
unfolding begin
begins_unwaited = refl

sftp_ends_example :
    (w : Serving) × SftpReach 1 (begin script) w × (w.waited ≡ true) × (w.copy.copied ≡ 79 ∷ [])
sftp_ends_example = sftp_ends 1 script (begin script) (omega arith) short_lines here begins_unwaited
