-- ===== src/Prelude/Strings.antt =====
-- Go strings as lists of bytes, and the functions of Go's package strings that the program calls.
use Prim.Native.Char.{code}
use Prim.Native.String.{String}
use Prim.Native.Nat.{ℕ, zero, suc}
use mathlib.Core.Path.{◌≡◌, refl}
use mathlib.Core.Logic.{◌↔◌, ◌⊎◌, inl, inr}
use mathlib.Core.Bool.{Bool, true, false, ◌&&◌, ◌||◌}
use mathlib.Core.Option.{Option, none, some}
use mathlib.Core.List.{List, [], ◌∷◌, ◌++◌}
use native.Mathlib.Omega.{arith}
use mini_shellhub.Prelude.Tests.{◌==◌, ==_refl, Bool-cases}

abbrev pub Text : Type 0
Text = List ℕ

-- A literal's code points: its bytes, if it is ASCII.
abbrev pub codes : String → Text
codes String.[] = []
codes (String.◌∷◌ c s) = code c ∷ codes s

-- `a == b` on strings.
unfoldable pub text_eq : Text → Text → Bool
text_eq [] [] = true
text_eq [] (b ∷ t) = false
text_eq (a ∷ s) [] = false
text_eq (a ∷ s) (b ∷ t) = (a == b) && text_eq s t

pub text_eq→≡ : (s t : Text) → text_eq s t ≡ true → s ≡ t
unfolding text_eq
text_eq→≡ [] [] h = refl
text_eq→≡ [] (b ∷ t) h = cc
text_eq→≡ (a ∷ s) [] h = cc
text_eq→≡ (a ∷ s) (b ∷ t) h = ground (arith, text_eq→≡ s t)

pub text_eq_refl : (s : Text) → text_eq s s ≡ true
unfolding text_eq
text_eq_refl [] = refl
text_eq_refl (a ∷ s) = ground (arith, text_eq_refl s)

pub text_eq_iff : (s t : Text) → (text_eq s t ≡ true) ↔ (s ≡ t)
text_eq_iff s t = (text_eq→≡ s t, λ e. rw e (text_eq_refl t))

-- strings.Contains with a pattern of one byte.
unfoldable pub contains : Text → ℕ → Bool
contains [] b = false
contains (c ∷ s) b = c == b || contains s b

-- strings.HasPrefix.
unfoldable pub has_prefix : Text → Text → Bool
has_prefix s [] = true
has_prefix [] (p ∷ ps) = false
has_prefix (c ∷ s) (p ∷ ps) = c == p && has_prefix s ps

-- The text before and after the first `sep`.
unfoldable pub cut : Text → ℕ → Option (Text × Text)
cut [] sep = none
cut (c ∷ s) sep = elim (c == sep) [
  | true ↦ some ([], s)
  | false ↦ elim (cut s sep) [ none ↦ none | some (a, b) ↦ some (c ∷ a, b) ]
]

-- strings.SplitN with a separator of one byte: at most n parts, the last one uncut.
unfoldable pub split_n : Text → ℕ → ℕ → List Text
unfolding cut
split_n s sep zero = []
split_n s sep (suc zero) = s ∷ []
split_n s sep (suc (suc n)) = elim (cut s sep) [
  | none ↦ s ∷ []
  | some (a, b) ↦ a ∷ split_n b sep (suc n)
]

pub contains-append : (a b : Text) (x : ℕ) → contains (a ++ b) x ≡ (contains a x || contains b x)
unfolding contains
contains-append [] b x = refl
contains-append (c ∷ a) b x = ground (arith, contains-append a b x)

pub contains_middle : (a b : Text) (x : ℕ) → contains (a ++ x ∷ b) x ≡ true
unfolding contains
contains_middle [] b x = ground (arith, ==_refl x)
contains_middle (c ∷ a) b x = ground (arith, contains_middle a b x)

pub cut-none : (s : Text) (sep : ℕ) → contains s sep ≡ false → cut s sep ≡ none
unfolding contains cut
cut-none [] sep h = refl
cut-none (c ∷ s) sep h = ground (arith, cut-none s sep)

-- The first separator is found behind a text that has none.
pub cut-append :
    (a b : Text) (sep : ℕ) → contains a sep ≡ false → cut (a ++ sep ∷ b) sep ≡ some (a, b)
unfolding contains cut
cut-append [] b sep h = ground arith
cut-append (c ∷ a) b sep h = ground (arith, cut-append a b sep)

-- The two outcomes of a cut: no separator at all, or the parts around the first one.
pub cut-cases :
    (s : Text) (sep : ℕ)
    → (cut s sep ≡ none) × (contains s sep ≡ false)
      ⊎ ((a : Text) × (b : Text) × (cut s sep ≡ some (a, b))
          × (s ≡ a ++ sep ∷ b)
          × (contains a sep ≡ false))
unfolding contains cut
cut-cases [] sep = inl (refl, refl)
cut-cases (c ∷ s) sep = elim (Bool-cases (c == sep)) [
  | inl e ↦ inr ([], s, rw (e, cut), ground arith, refl)
  | inr e ↦ elim (cut-cases s sep) [
    | inl (n, f) ↦ inl (ground arith, ground arith)
    | inr (a, b, p, q, f) ↦ inr (c ∷ a, b, ground arith, cc, ground arith)
  ]
]

-- Where it succeeds, the cut loses nothing and stops at the first separator.
pub cut-some :
    (s : Text) (sep : ℕ) (a b : Text)
    → cut s sep ≡ some (a, b)
    → (s ≡ a ++ sep ∷ b) × (contains a sep ≡ false)
cut-some s sep a b h = elim (cut-cases s sep) [
  | inl (n, f) ↦ absurd (cc)
  | inr (a', b', p, q, f) ↦ ground arith
]

pub contains→cut :
    (s : Text) (sep : ℕ)
    → contains s sep ≡ true
    → (a : Text) × (b : Text) × (cut s sep ≡ some (a, b))
contains→cut s sep h = elim (cut-cases s sep) [
  | inl (n, f) ↦ absurd (cc)
  | inr (a, b, p, q, f) ↦ (a, b, p)
]
