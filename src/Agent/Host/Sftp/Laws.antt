-- ===== src/Agent/Host/Sftp/Laws.antt =====
-- agent/pkg/agent/server/modes/host/sessioner.go, SFTP: the process always comes to its end, since its
-- two outputs are read side by side, unless a line on standard error is too long for the Scanner.
use mini_shellhub.Prelude.{
  Reach-preserves, Reach-before, here, next, ℕ, zero, suc, ◌<◌, List, [], ◌∷◌, ◌++◌, Text, ◌≡◌,
  refl, sym, ◌∙◌, true, false, length-append, append_assoc, append-nil, arith,
}
use mini_shellhub.Copies.{Stream, stdout, stderr, Copy}
use mini_shellhub.Copies
use mini_shellhub.Copies.Laws.{out_bytes, err_bytes, measure}
use mini_shellhub.Agent.Host.Sftp.{
  Serving, line_limit, line_after, begin, SftpStep, serves_out, serves_err, copies_out, logs_err,
  process_ends, SftpReach,
}

-- While the process is not waited for, no byte of its output is lost.
abbrev Keeps : List (Stream × ℕ) → Serving → Type 0
Keeps script v = v.copy.copied ++ (v.copy.out_buffer ++ out_bytes v.copy.todo) ≡ out_bytes script

module _ {capacity : ℕ} (script : List (Stream × ℕ)) where
  Step-Keeps :
      {v w : Serving} → SftpStep capacity v w → w.waited ≡ false → Keeps script v → Keeps script w
  Step-Keeps {v} (serves_out b rest t r) e k =
      rw (append_assoc v.copy.out_buffer (b ∷ []) (out_bytes rest)) (rw t at k)
  Step-Keeps {v} (serves_err b rest t r) e k = rw t at k
  Step-Keeps {v} (copies_out b rest o) e k =
      append_assoc v.copy.copied (b ∷ []) (rest ++ out_bytes v.copy.todo) ∙ (rw o at k)
  Step-Keeps {v} (logs_err b rest l o) e k = k
  Step-Keeps {v} (process_ends t) e k = absurd (cc)

  was_waited : {v w : Serving} → SftpStep capacity v w → w.waited ≡ false → v.waited ≡ false
  was_waited (serves_out b rest t r) e = e
  was_waited (serves_err b rest t r) e = e
  was_waited (copies_out b rest o) e = e
  was_waited (logs_err b rest l o) e = e
  was_waited (process_ends t) e = absurd (cc)

  Reach-Keeps :
      {v : Serving} → SftpReach capacity (begin script) v → v.waited ≡ false → Keeps script v
  unfolding begin Copies.start
  Reach-Keeps here e = refl
  Reach-Keeps (next r s) e = Step-Keeps s e (Reach-Keeps r (was_waited s e))

-- No line of the text has as many bytes as a Scanner takes, behind so many of its first line.
abbrev pub HasShortLines : ℕ → Text → Type 0
HasShortLines line [] = Unit {0}
HasShortLines line (b ∷ bytes) = (line < line_limit) × HasShortLines (line_after b line) bytes

-- What the logging goroutine has still to read.
abbrev unlogged : Serving → Text
unlogged v = v.copy.err_buffer ++ err_bytes v.copy.todo

Step-HasShortLines :
    {capacity : ℕ} {v w : Serving}
    → SftpStep capacity v w
    → HasShortLines v.line (unlogged v)
    → HasShortLines w.line (unlogged w)
Step-HasShortLines {capacity} {v} (serves_out b rest t r) h = rw t at h
Step-HasShortLines {capacity} {v} (serves_err b rest t r) h =
    rw (append_assoc v.copy.err_buffer (b ∷ []) (err_bytes rest)) (rw t at h)
Step-HasShortLines {capacity} {v} (copies_out b rest o) h = h
Step-HasShortLines {capacity} {v} (logs_err b rest l o) h = (rw o at h).1
Step-HasShortLines {capacity} {v} (process_ends t) h = rw t tt

Reach-HasShortLines :
    {capacity : ℕ} (script : List (Stream × ℕ)) {v : Serving}
    → HasShortLines 0 (err_bytes script)
    → SftpReach capacity (begin script) v
    → HasShortLines v.line (unlogged v)
unfolding begin Copies.start
Reach-HasShortLines script h r = Reach-preserves (λ v w. Step-HasShortLines) r h

module _ (capacity : ℕ) where
  -- From wherever the process still runs, a run in which both readers keep up comes to its end with all
  -- of the output.
  runs_on :
      (n : ℕ) (todo : List (Stream × ℕ)) (out : Text) (v : Serving)
      → 0 < capacity
      → measure v.copy < n
      → v.copy.todo ≡ todo
      → v.copy.out_buffer ≡ out
      → (err : Text) → v.copy.err_buffer ≡ err
      → HasShortLines v.line (err ++ err_bytes todo)
      → (w : Serving) × SftpReach capacity v w
        × (w.waited ≡ true)
        × (w.copy.copied ≡ v.copy.copied ++ (out ++ out_bytes todo))
  runs_on zero todo out v h k t o err e short = absurd (omega arith)
  runs_on (suc n) todo (b ∷ out) v h k t o err e short =
      let (w, r, ended, c) = runs_on n todo out _ h (ground (arith)) t refl err e short in
      (
        w,
        Reach-before (copies_out b out o) r,
        ended,
        c ∙ append_assoc v.copy.copied (b ∷ []) (out ++ out_bytes todo),
      )
  runs_on (suc n) [] [] v h k t o err e short =
      (_, next here (process_ends t), refl, sym (append-nil v.copy.copied))
  runs_on (suc n) ((stdout, b) ∷ todo) [] v h k t o err e short =
      let (w, r, ended, c) =
        runs_on n todo (b ∷ []) _ h (ground (arith, length-append v.copy.out_buffer (b ∷ []))) refl
          (rw o refl) err e short in
      (w, Reach-before (serves_out b todo t (rw o (ground arith))) r, ended, c)
  runs_on (suc n) ((stderr, b) ∷ todo) [] v h k t o [] e short =
      let (w, r, ended, c) =
        runs_on n todo [] _ h (ground (arith, length-append v.copy.err_buffer (b ∷ []))) refl o
          (b ∷ []) (rw e refl) short in
      (w, Reach-before (serves_err b todo t (rw e (ground arith))) r, ended, c)
  runs_on (suc n) ((stderr, b) ∷ todo) [] v h k t o (x ∷ err) e short =
      let (w, r, ended, c) =
        runs_on n ((stderr, b) ∷ todo) [] _ h (ground arith) t o err refl short.1 in
      (w, Reach-before (logs_err x err short.0 e) r, ended, c)

-- With pipes that hold a byte each, and however much the process writes to standard error in lines that are
-- shorter than what bufio.Scanner takes (64 KiB), every run of
-- SFTP in which it is not yet waited for can be continued until it is, with all that it writes to
-- standard output copied to the session.
pub sftp_ends :
    (capacity : ℕ) (script : List (Stream × ℕ)) (v : Serving)
    → 0 < capacity
    → HasShortLines 0 (err_bytes script)
    → SftpReach capacity (begin script) v
    → v.waited ≡ false
    → (w : Serving) × SftpReach capacity v w
      × (w.waited ≡ true)
      × (w.copy.copied ≡ out_bytes script)
sftp_ends capacity script v h short r e =
    let (w, q, ended, c) =
      runs_on capacity (suc (measure v.copy)) v.copy.todo v.copy.out_buffer v h (omega arith) refl
        refl v.copy.err_buffer refl (Reach-HasShortLines script short r) in
    (w, q, ended, c ∙ Reach-Keeps script r e)
