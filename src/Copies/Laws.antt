-- ===== src/Copies/Laws.antt =====
-- What is copied, in which order, and when copying comes to its end.
use mini_shellhub.Prelude.{
  here, next, ℕ, suc, ◌+◌, ◌*◌, List, [], ◌∷◌, ◌++◌, Text, ◌≡◌, refl, sym, ◌∙◌, ap, Bool, true,
  false, length, length-append, append_assoc, append-nil, arith,
}
use mini_shellhub.Copies.{
  Stream, stdout, stderr, Copy, Room, Step, writes_out, writes_err, reads_out, reads_err, Reach,
  IsDone, start, front, behind,
}

-- The bytes of a script for each stream.
abbrev pub out_bytes : List (Stream × ℕ) → Text
out_bytes [] = []
out_bytes ((stdout, b) ∷ script) = b ∷ out_bytes script
out_bytes ((stderr, b) ∷ script) = out_bytes script

abbrev pub err_bytes : List (Stream × ℕ) → Text
err_bytes [] = []
err_bytes ((stdout, b) ∷ script) = err_bytes script
err_bytes ((stderr, b) ∷ script) = b ∷ err_bytes script

behind-empty : (item : Stream × ℕ) (todo : List (Stream × ℕ)) → behind item todo ≡ [] → todo ≡ []
behind-empty item [] h = refl
behind-empty item (other ∷ todo) h = absurd (ground arith)

-- Once the first stream has ended, nothing is written to it.
out_bytes-front :
    (early : Bool) (todo : List (Stream × ℕ)) → front early todo ≡ [] → out_bytes todo ≡ []
out_bytes-front false todo h = ap out_bytes h
out_bytes-front true [] h = refl
out_bytes-front true ((stdout, b) ∷ todo) h = absurd (ground arith)
out_bytes-front true ((stderr, b) ∷ todo) h =
    out_bytes-front true todo (behind-empty (stderr, b) (front true todo) h)

-- All that is and will be copied, in the reader's order.
abbrev whole : Copy → Text
whole c = c.copied ++ (c.out_buffer ++ (out_bytes c.todo ++ (c.err_buffer ++ err_bytes c.todo)))

-- The steps that are left at most.
abbrev pub measure : Copy → ℕ
measure c = 2 * length c.todo + length c.out_buffer + length c.err_buffer

module _ {room : Room} where
  Step-whole : {c d : Copy} → Step room c d → whole d ≡ whole c
  Step-whole {c} (writes_out b rest t r) =
      rw
        (t, append_assoc c.out_buffer (b ∷ []) (out_bytes rest ++ (c.err_buffer ++ err_bytes rest)))
        refl
  Step-whole {c} (writes_err b rest t r) =
      rw (t, append_assoc c.err_buffer (b ∷ []) (err_bytes rest)) refl
  Step-whole {c} (reads_out b rest o) =
      rw
        (
          o,
          append_assoc c.copied (b ∷ [])
              (rest ++ (out_bytes c.todo ++ (c.err_buffer ++ err_bytes c.todo))),
        )
        refl
  Step-whole {c} (reads_err b rest t o e) =
      rw
        (
          out_bytes-front room.closes_early c.todo t,
          o,
          e,
          append_assoc c.copied (b ∷ []) (rest ++ err_bytes c.todo),
        )
        refl

  Reach-whole : {c d : Copy} → Reach room c d → whole d ≡ whole c
  Reach-whole here = refl
  Reach-whole (next r s) = Step-whole s ∙ Reach-whole r

  pub Step-measure : {c d : Copy} → Step room c d → measure d + 1 ≡ measure c
  Step-measure {c} (writes_out b rest t r) =
      rw t (omega (arith, length-append c.out_buffer (b ∷ [])))
  Step-measure {c} (writes_err b rest t r) =
      rw t (omega (arith, length-append c.err_buffer (b ∷ [])))
  Step-measure {c} (reads_out b rest o) = rw o (omega arith)
  Step-measure {c} (reads_err b rest t o e) = rw (o, e) (omega arith)

  -- The number of steps of a run.
  abbrev pub steps : {c d : Copy} → Reach room c d → ℕ
  steps here = 0
  steps (next r s) = suc (steps r)

  pub Reach-measure : {c d : Copy} (r : Reach room c d) → steps r + measure d ≡ measure c
  Reach-measure here = omega arith
  Reach-measure (next r s) = omega (arith, Reach-measure r, Step-measure s)

  -- However reads and writes take turns, what has been copied is a front of the first stream followed by
  -- the second.
  pub copied-prefix :
      (script : List (Stream × ℕ)) {c : Copy}
      → Reach room (start script) c
      → (rest : Text) × (out_bytes script ++ err_bytes script ≡ c.copied ++ rest)
  unfolding start
  copied-prefix script r = (_, sym (Reach-whole r))

  -- Once copying returns, the whole first stream and then the whole second have been copied.
  pub copied-whole :
      (script : List (Stream × ℕ)) {c : Copy}
      → Reach room (start script) c
      → IsDone c
      → c.copied ≡ out_bytes script ++ err_bytes script
  unfolding start
  copied-whole script {c} r d =
      sym (append-nil c.copied) ∙ (rw (d.written, d.out_read, d.err_read) at (Reach-whole r))
