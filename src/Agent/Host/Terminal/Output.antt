-- ===== src/Agent/Host/Terminal/Output.antt =====
-- agent/pkg/agent/server/modes/host: the output of a command with a terminal (startPty and initPty of
-- pty.go, Shell and Exec of sessioner.go). One goroutine copies from the terminal to the session; the
-- session ends behind `cmd.Wait`, which does not wait for it. What the terminal makes of a byte, such as
-- a line end, is the system's.
use mini_shellhub.Prelude
use mini_shellhub.Prelude.{
  here, next, ℕ, ◌+◌, ◌≤◌, [], ◌∷◌, ◌++◌, Text, ◌≡◌, refl, sym, ◌∙◌, Bool, true, false, length,
  length-append, append_assoc, arith,
}

pub record Session : Type 0 where
  -- What the command still writes, what the terminal holds, and what has reached the session.
  pub todo : Text
  pub held : Text
  pub copied : Text
  pub ended : Bool

abbrev pub begin : Text → Session
begin script = record { todo = script; held = []; copied = []; ended = false }

module _ (capacity : ℕ) (cook : ℕ → Text) where
  pub data Step (s : Session) : Session → Type 0 where
    writes :
        (b : ℕ) (rest : Text)
        → s.todo ≡ b ∷ rest
        → length s.held + length (cook b) ≤ capacity
        → Step s (record s { todo = rest; held = s.held ++ cook b })
    copies :
        (b : ℕ) (rest : Text)
        → s.ended ≡ false
        → s.held ≡ b ∷ rest
        → Step s (record s { held = rest; copied = s.copied ++ b ∷ [] })
    ends : s.todo ≡ [] → Step s (record s { ended = true })

abbrev pub Reach : ℕ → (ℕ → Text) → Session → Session → Type 0
Reach capacity cook = Prelude.Reach (Step capacity cook)

-- What the terminal makes of a text.
abbrev pub cooked : (ℕ → Text) → Text → Text
cooked cook [] = []
cooked cook (b ∷ bytes) = cook b ++ cooked cook bytes

module _ {capacity : ℕ} {cook : ℕ → Text} where
  Step-whole :
      {s t : Session}
      → Step capacity cook s t
      → t.copied ++ (t.held ++ cooked cook t.todo) ≡ s.copied ++ (s.held ++ cooked cook s.todo)
  Step-whole {s} (writes b rest t r) = rw (t, append_assoc s.held (cook b) (cooked cook rest)) refl
  Step-whole {s} (copies b rest e h) =
      rw (h, append_assoc s.copied (b ∷ []) (rest ++ cooked cook s.todo)) refl
  Step-whole (ends t) = refl

  Reach-whole :
      {s t : Session}
      → Reach capacity cook s t
      → t.copied ++ (t.held ++ cooked cook t.todo) ≡ s.copied ++ (s.held ++ cooked cook s.todo)
  Reach-whole here = refl
  Reach-whole (next r t) = Step-whole t ∙ Reach-whole r

  -- What has reached the session is always a front of what the command writes, in the order of its
  -- writes to either output.
  pub copied-prefix :
      (script : Text) {s : Session}
      → Reach capacity cook (begin script) s
      → (rest : Text) × (cooked cook script ≡ s.copied ++ rest)
  copied-prefix script r = (_, sym (Reach-whole r))

  writes_all :
      (todo script : Text) (s : Session)
      → s.todo ≡ todo
      → s.copied ≡ []
      → length s.held + length (cooked cook todo) ≤ capacity
      → Reach capacity cook (begin script) s
      → (t : Session) × Reach capacity cook (begin script) t × (t.todo ≡ []) × (t.copied ≡ [])
  writes_all [] script s e c k r = (s, r, e, c)
  writes_all (b ∷ todo) script s e c k r =
      writes_all todo script _ refl c
        (omega (arith, length-append s.held (cook b), length-append (cook b) (cooked cook todo)))
        (next r (writes b todo e (omega (arith, length-append (cook b) (cooked cook todo)))))

-- A command with a terminal whose output the terminal can hold can end with none of it at the client.
pub terminal_loses_output :
    (capacity : ℕ) (cook : ℕ → Text) (script : Text)
    → length (cooked cook script) ≤ capacity
    → (s : Session) × Reach capacity cook (begin script) s × (s.ended ≡ true) × (s.copied ≡ [])
terminal_loses_output capacity cook script k =
    let (t, r, e, c) = writes_all script script (begin script) refl refl (omega (arith, k)) here in
    (_, next r (ends e), refl, c)
