-- ===== src/Copies/Ending.antt =====
-- When copying returns: exactly if the buffer of the second stream holds all that is written to it, since
-- the reader waits for the end of the first.
use mini_shellhub.Prelude.{
  Reach-before, Reach-preserves, here, next, ℕ, zero, suc, ◌+◌, ◌*◌, ◌<◌, ◌≤◌, List, [], ◌∷◌, Text,
  ◌≡◌, refl, Bool, true, false, length, length-append, arith, ◌⊎◌, inl, inr,
}
use mini_shellhub.Copies.{
  Stream, stdout, stderr, Copy, Room, pipes, window, Step, writes_out, writes_err, reads_out,
  reads_err, Reach, IsDone, start, front, behind,
}
use mini_shellhub.Copies.Laws.{err_bytes, measure, steps, Step-measure, Reach-measure}

-- The second buffer never holds more than a number of bytes.
abbrev pub Holds : Room → ℕ → Type 0
Holds room size = (out err : ℕ) → room.has_room stderr out err ≡ true → err < size

-- The bytes that are written to the second stream before the first has ended.
abbrev pub before_end : Room → List (Stream × ℕ) → Text
before_end room script = err_bytes (front room.closes_early script)

-- All of these are in their buffer or still to be written; or the first stream has ended, and they were in
-- the buffer then.
pub record Inv (room : Room) (script : List (Stream × ℕ)) (size : ℕ) (c : Copy) : Type 0 where
  pub held : length c.err_buffer ≤ size
  pub kept :
      (length c.err_buffer + length (before_end room c.todo) ≡ length (before_end room script))
      ⊎ (front room.closes_early c.todo ≡ []) × (length (before_end room script) ≤ size)

front-nothing : (early : Bool) → front early [] ≡ []
front-nothing false = refl
front-nothing true = refl

behind-cases :
    (item : Stream × ℕ) (todo : List (Stream × ℕ))
    → (behind item todo ≡ item ∷ todo) ⊎ (behind item todo ≡ []) × (todo ≡ [])
behind-cases item [] = inr (refl, refl)
behind-cases item (other ∷ todo) = inl refl

-- What a byte that is written does to the front of the script.
front-out :
    (early : Bool) (b : ℕ) (rest : List (Stream × ℕ))
    → front early ((stdout, b) ∷ rest) ≡ (stdout, b) ∷ front early rest
front-out false b rest = refl
front-out true b rest = refl

front-err :
    (early : Bool) (b : ℕ) (rest : List (Stream × ℕ))
    → (front early ((stderr, b) ∷ rest) ≡ (stderr, b) ∷ front early rest)
      ⊎ (front early ((stderr, b) ∷ rest) ≡ []) × (front early rest ≡ [])
front-err false b rest = inl refl
front-err true b rest = behind-cases (stderr, b) (front true rest)

module _ {room : Room} {size : ℕ} (h : Holds room size) (script : List (Stream × ℕ)) where
  pub Step-Inv : {c d : Copy} → Step room c d → Inv room script size c → Inv room script size d
  Step-Inv {c} (writes_out b rest t r) v = ground (arith, front-out room.closes_early b rest)
  Step-Inv {c} (writes_err b rest t r) v = ground (
    arith,
    h (length c.out_buffer) (length c.err_buffer),
    length-append c.err_buffer (b ∷ []),
    front-err room.closes_early b rest,
  )
  Step-Inv {c} (reads_out b rest o) v = ground arith
  Step-Inv {c} (reads_err b rest t o e) v = ground arith

  pub Reach-Inv : {c : Copy} → Reach room (start script) c → Inv room script size c
  unfolding start
  Reach-Inv r =
      Reach-preserves (λ c d. Step-Inv) r (record { held = omega arith; kept = inl (omega arith) })

  -- Where the second buffer never holds more than a number of bytes, copying returns only if no more than
  -- these are written to the second stream before the first has ended.
  pub done-le :
      {c : Copy} → Reach room (start script) c → IsDone c → length (before_end room script) ≤ size
  done-le {c} r d = ground (arith, Reach-Inv r, d, front-nothing room.closes_early)

pub pipes-Holds : (early : Bool) (capacity : ℕ) → Holds (pipes early capacity) capacity
pipes-Holds early capacity out err h = ground arith

-- The two streams of a channel: the second buffer is within the window that both share.
pub window-Holds : (size : ℕ) → Holds (window size) size
window-Holds size out err h = ground arith

-- Nothing that is still to be written to the second stream, of so many bytes, keeps the writer waiting for
-- long: there is room for it whenever the first buffer is empty.
abbrev pub HasRoom : Room → ℕ → Type 0
HasRoom room size =
    ((err : ℕ) → err ≤ size → room.has_room stdout 0 err ≡ true)
    × ((err : ℕ) → err < size → room.has_room stderr 0 err ≡ true)
    × (room.has_room stderr 0 0 ≡ true)

pub pipes-HasRoom :
    (early : Bool) (capacity size : ℕ)
    → 0 < capacity
    → size ≤ capacity
    → HasRoom (pipes early capacity) size
pipes-HasRoom early capacity size h k = (λ err l. ground arith, λ err l. ground arith, ground arith)

pub window-HasRoom : (window_size size : ℕ) → size < window_size → HasRoom (window window_size) size
window-HasRoom window_size size h = (λ err l. ground arith, λ err l. ground arith, ground arith)

module _ {room : Room} {size : ℕ} (h : Holds room size) (script : List (Stream × ℕ))
    (fits : HasRoom room (length (before_end room script))) where
  -- Once the first stream has ended, the second is read, or has room.
  ended_at :
      (b : ℕ) (todo : List (Stream × ℕ)) (err : Text) (c : Copy)
      → c.todo ≡ (stderr, b) ∷ todo
      → c.out_buffer ≡ []
      → c.err_buffer ≡ err
      → front room.closes_early ((stderr, b) ∷ todo) ≡ []
      → IsDone c ⊎ ((d : Copy) × Step room c d)
  ended_at b todo [] c t o e f = inr (_, writes_err b todo t (rw (o, e) (fits.2)))
  ended_at b todo (x ∷ err) c t o e f = inr (_, reads_err x err (rw t f) o e)

  -- What can be done next, by what is left of the script and in the buffers.
  progress_at :
      (todo : List (Stream × ℕ)) (out err : Text) (c : Copy)
      → c.todo ≡ todo
      → c.out_buffer ≡ out
      → c.err_buffer ≡ err
      → Inv room script size c
      → IsDone c ⊎ ((d : Copy) × Step room c d)
  progress_at todo (b ∷ out) err c t o e v = inr (_, reads_out b out o)
  progress_at [] [] [] c t o e v = inl (record { written = t; out_read = o; err_read = e })
  progress_at [] [] (b ∷ err) c t o e v =
      inr (_, reads_err b err (rw t (front-nothing room.closes_early)) o e)
  progress_at ((stdout, b) ∷ todo) [] err c t o e v = inr (
    _,
    writes_out b todo t (
        rw o
          (fits.0 (length c.err_buffer) (ground (arith, v, front-out room.closes_early b todo)))),
  )
  progress_at ((stderr, b) ∷ todo) [] err c t o e v = elim (front-err room.closes_early b todo) [
    | inl f ↦
        inr (_, writes_err b todo t (rw o (fits.1 (length c.err_buffer) (ground (arith, v, f)))))
    | inr (f, g) ↦ ended_at b todo err c t o e f
  ]

  progress : {c : Copy} → Reach room (start script) c → IsDone c ⊎ ((d : Copy) × Step room c d)
  progress {c} r =
      progress_at c.todo c.out_buffer c.err_buffer c refl refl refl (Reach-Inv h script r)

  runs_on :
      (n : ℕ) {c : Copy}
      → measure c < n
      → Reach room (start script) c
      → (d : Copy) × Reach room c d × IsDone d
  runs_on zero k r = absurd (omega arith)
  runs_on (suc n) {c} k r = elim (progress r) [
    | inl d ↦ (c, here, d)
    | inr (d, s) ↦
        let (e, q, f) = runs_on n (omega (arith, Step-measure s)) (next r s) in
        (e, Reach-before s q, f)
  ]

  -- A run that goes on reaches the end.
  pub copies_on : {c : Copy} → Reach room (start script) c → (d : Copy) × Reach room c d × IsDone d
  copies_on {c} r = runs_on (suc (measure c)) (omega arith) r

-- With pipes that hold a byte each, and the second all that is written to it before standard output has ended, copying terminates: no run
-- makes more than two steps for each byte written, and a run that can make no further step has returned.
pub copies_terminate :
    (early : Bool) (capacity : ℕ) (script : List (Stream × ℕ)) {c : Copy}
    (r : Reach (pipes early capacity) (start script) c)
    → 0 < capacity
    → length (err_bytes (front early script)) ≤ capacity
    → (steps r ≤ 2 * length script) × (IsDone c ⊎ ((d : Copy) × Step (pipes early capacity) c d))
unfolding start
copies_terminate early capacity script r h fits = (
  omega (arith, Reach-measure r),
  progress (pipes-Holds early capacity) script (pipes-HasRoom early capacity _ h fits) r,
)
