-- ===== src/Agent/Host/Running/Laws.antt =====
-- agent/pkg/agent/server/modes/host/sessioner.go: when the client gets an exit status, and how much of
-- the output it has then.
use mini_shellhub.Prelude.{
  here, next, Bool, ℕ, ◌+◌, ◌<◌, ◌≤◌, List, [], ◌∷◌, ◌++◌, ◌≡◌, ◌≢◌, refl, none, some, length,
  length-append, arith, ◌⊎◌, inl, inr, ◌↔◌,
}
use mini_shellhub.Agent.Config.{ℤ}
use mini_shellhub.Copies.{
  Stream, stdout, stderr, Copy, pipes, IsDone, front, behind, writes_out, writes_err,
}
use mini_shellhub.Copies
use mini_shellhub.Copies.Laws.{out_bytes, err_bytes, copied-whole}
use mini_shellhub.Copies.Ending.{pipes-Holds, pipes-HasRoom, done-le, copies_on}
use mini_shellhub.Agent.Host.Running.{
  Running, begin, exec_copies, exec_exits, ExecReach, heredoc_copies, heredoc_exits, HeredocReach,
}

module _ {early : Bool} {capacity : ℕ} {code : ℤ} (script : List (Stream × ℕ)) where
  -- A run of Exec is a run of its copy, which has returned if a status was sent.
  copy_of :
      {r : Running}
      → ExecReach early capacity code (begin script) r
      → Copies.Reach (pipes early capacity) (Copies.start script) r.copy
        × (r.exit ≡ none ⊎ IsDone r.copy)
  unfolding begin
  copy_of here = (here, inl refl)
  copy_of (next r (exec_copies e s)) = (next (copy_of r).0 s, inl e)
  copy_of (next r (exec_exits d)) = ((copy_of r).0, inr d)

  exited-IsDone :
      {r : Running} → ExecReach early capacity code (begin script) r → r.exit ≢ none → IsDone r.copy
  exited-IsDone r e = elim (copy_of r).1 [ inl n ↦ absurd (e n) | inr d ↦ d ]

  -- When Exec has sent a status, the client has been given the command's whole standard output and then
  -- its whole standard error.
  pub exec_exited-copied :
      {r : Running}
      → ExecReach early capacity code (begin script) r
      → r.exit ≢ none
      → r.copy.copied ≡ out_bytes script ++ err_bytes script
  exec_exited-copied r e = copied-whole script (copy_of r).0 (exited-IsDone r e)

  exec_exited-le :
      {r : Running}
      → ExecReach early capacity code (begin script) r
      → r.exit ≢ none
      → length (err_bytes (front early script)) ≤ capacity
  exec_exited-le r e = done-le (pipes-Holds early capacity) script (copy_of r).0 (exited-IsDone r e)

  run_of :
      {c : Copy}
      → Copies.Reach (pipes early capacity) (Copies.start script) c
      → ExecReach early capacity code (begin script) (record { copy = c; exit = none })
  unfolding begin
  run_of here = here
  run_of (next r s) = next (run_of r) (exec_copies refl s)

-- With pipes that hold a byte each, a command that is run without a terminal can come to an exit status
-- exactly if all that it writes to standard error before its standard output has ended fits in one pipe:
-- Exec reads that pipe only after standard output has ended, which a command that keeps it open until it
-- ends itself (`early` is false) does with its last byte, and one that closes it early with the last byte
-- for it.
pub exec_exits_iff :
    (early : Bool) (capacity : ℕ) (code : ℤ) (script : List (Stream × ℕ))
    → 0 < capacity
    → ((r : Running) × ExecReach early capacity code (begin script) r × (r.exit ≡ some code))
      ↔ (length (err_bytes (front early script)) ≤ capacity)
exec_exits_iff early capacity code script h = (
  λ p. exec_exited-le script p.1 (λ n. ground (arith, p.2)),
  λ fits.
      let (c, r, d) =
        copies_on (pipes-Holds early capacity) script (pipes-HasRoom early capacity _ h fits)
          here in
      (record { copy = c; exit = some code }, next (run_of script r) (exec_exits d), refl),
)

module _ (early : Bool) (capacity : ℕ) (code : ℤ) where
  -- While both pipes have room for the rest, the command can write all of it before any is read.
  writes_all :
      (todo : List (Stream × ℕ)) (r : Running)
      → r.exit ≡ none
      → r.copy.todo ≡ todo
      → length r.copy.out_buffer + length (out_bytes todo) ≤ capacity
      → length r.copy.err_buffer + length (err_bytes todo) ≤ capacity
      → (script : List (Stream × ℕ)) → HeredocReach early capacity code (begin script) r
      → (q : Running) × HeredocReach early capacity code (begin script) q
        × (q.copy.todo ≡ [])
        × (q.copy.copied ≡ r.copy.copied)
  writes_all [] r e t o k script h = (r, h, t, refl)
  writes_all ((stdout, b) ∷ todo) r e t o k script h =
      writes_all todo _ e refl (omega (arith, length-append r.copy.out_buffer (b ∷ [])))
        (omega arith) script (next h (heredoc_copies e (writes_out b todo t (ground arith))))
  writes_all ((stderr, b) ∷ todo) r e t o k script h =
      writes_all todo _ e refl (omega arith)
        (omega (arith, length-append r.copy.err_buffer (b ∷ []))) script
        (next h (heredoc_copies e (writes_err b todo t (ground arith))))

  -- A script on standard input whose output fits in the pipes can end with its exit status sent and none
  -- of its output: Heredoc does not wait for the copy.
  pub heredoc_loses_output :
      (script : List (Stream × ℕ))
      → length (out_bytes script) ≤ capacity
      → length (err_bytes script) ≤ capacity
      → (r : Running) × HeredocReach early capacity code (begin script) r
        × (r.exit ≡ some code)
        × (r.copy.copied ≡ [])
  unfolding begin Copies.start
  heredoc_loses_output script o k =
      let (q, r, t, c) =
        writes_all script (begin script) refl refl (omega arith) (omega arith) script here in
      (_, next r (heredoc_exits t), refl, c)
