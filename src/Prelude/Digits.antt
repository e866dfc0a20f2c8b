-- ===== src/Prelude/Digits.antt =====
-- strconv.FormatInt in base ten, of numbers that are not negative.
use Prim.Native.Nat.{ℕ, zero, suc, ◌+◌, ◌-◌, ◌*◌, ◌/◌, ◌%◌, ◌<◌}
use mathlib.Core.Path.{◌≡◌, refl, ap, ◌∙◌}
use mathlib.Core.Logic.{inl, inr}
use mathlib.Core.Bool.{true, false}
use mathlib.Core.List.{[], ◌∷◌}
use native.Mathlib.Omega.{arith}
use mini_shellhub.Prelude.Tests.{ltb, if◌then◌else◌, Bool-cases}
use mini_shellhub.Prelude.Strings.{Text, contains}

-- The digits of n in front of a text. Fuel that is more than n is enough.
digits_on : ℕ → ℕ → Text → Text
digits_on zero n s = s
digits_on (suc fuel) n s =
    let rest = digits_on fuel (n / 10) ((48 + n % 10) ∷ s) in
    if ltb n 10 then (48 + n) ∷ s else rest

unfoldable pub format_int : ℕ → Text
unfolding digits_on
format_int n = digits_on (suc n) n []

-- The number that digits denote behind a number that was read before.
abbrev pub read_int : ℕ → Text → ℕ
read_int n [] = n
read_int n (c ∷ s) = read_int (n * 10 + (c - 48)) s

read_int-digits_on :
    (fuel n : ℕ) (s : Text) → n < fuel → read_int 0 (digits_on fuel n s) ≡ read_int n s
unfolding digits_on
read_int-digits_on zero n s h = absurd (omega arith)
read_int-digits_on (suc fuel) n s h = elim (Bool-cases (ltb n 10)) [
  | inl e ↦ rw e (ap (λ k. read_int k s) (same e))
  | inr e ↦ rw e (
      read_int-digits_on fuel (n / 10) ((48 + n % 10) ∷ s) (smaller e)
      ∙ ap (λ k. read_int k s) (joined e))
]
  where
    same : ltb n 10 ≡ true → 0 * 10 + (48 + n - 48) ≡ n
    same e = ground arith

    smaller : ltb n 10 ≡ false → n / 10 < fuel
    smaller e = ground arith

    joined : ltb n 10 ≡ false → n / 10 * 10 + (48 + n % 10 - 48) ≡ n
    joined e = ground arith

contains-digits_on :
    (fuel n : ℕ) (s : Text) (x : ℕ)
    → 57 < x
    → contains s x ≡ false
    → contains (digits_on fuel n s) x ≡ false
unfolding digits_on contains
contains-digits_on zero n s x h k = k
contains-digits_on (suc fuel) n s x h k =
    ground (arith, contains-digits_on fuel (n / 10) ((48 + n % 10) ∷ s) x)

-- The digits denote the number.
pub read_int-format_int : (n : ℕ) → read_int 0 (format_int n) ≡ n
unfolding format_int
read_int-format_int n = read_int-digits_on (suc n) n [] (omega arith)

pub contains-format_int : (n x : ℕ) → 57 < x → contains (format_int n) x ≡ false
unfolding format_int contains
contains-format_int n x h = contains-digits_on (suc n) n [] x h refl
