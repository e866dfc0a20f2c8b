-- ===== src/Devices/Interleaving.antt =====
-- ssh/main.go: the handlers of different devices call AddDevice and RemoveDevice in any order. What a
-- history of calls leaves is settled by the calls of each device.
pub mod Quotient
use mini_shellhub.Prelude.{
  ℕ, Text, List, [], ◌∷◌, ◌++◌, ◌≡◌, ◌↔◌, ◌⊎◌, refl, sym, ap, ◌∙◌, Option, none, some, Result, ok,
  err, Bool, true, false, ◌||◌, ◌&&◌, ◌==◌, arith, lookup, insert, delete, text_key, text_eq,
  text_eq_iff, if◌then◌else◌, Option-cases, Bool-cases, inl, inr,
}
use mathlib.Core.Quot
use native.Mathlib.Nat.{ℕ_set}
use mathlib.Core.Quot.{Quot, Quot-set}
use mini_shellhub.Devices.{
  DeviceManager, is_closed, close_session, add_device, remove_device, StreamError, YamuxOpen,
  open_stream,
}
use mini_shellhub.Devices.Laws.{lookup-add_device, lookup-remove_device}
use mini_shellhub.Devices.Locking.{Call, adds, removes, run_call}

abbrev pub device_of : Call → Text
device_of (adds id s) = id
device_of (removes id) = id

unfoldable pub run_calls : List Call → DeviceManager → DeviceManager
run_calls [] dm = dm
run_calls (call ∷ calls) dm = run_calls calls (run_call call dm)

-- The calls of one device, in their order.
abbrev pub calls_of : Text → List Call → List Call
calls_of id [] = []
calls_of id (call ∷ calls) =
    let rest = calls_of id calls in if text_eq (device_of call) id then call ∷ rest else rest

-- What a device's own calls make of its session.
abbrev after : Option ℕ → Call → Option ℕ
after session (adds id s) = some s
after session (removes id) = none

abbrev session_after : Option ℕ → List Call → Option ℕ
session_after session [] = session
session_after session (call ∷ calls) = session_after (after session call) calls

-- The sessions that they close.
abbrev closes : ℕ → Option ℕ → Bool
closes s none = false
closes s (some old) = old == s

abbrev closes_any : ℕ → Option ℕ → List Call → Bool
closes_any s session [] = false
closes_any s session (call ∷ calls) = closes s session || closes_any s (after session call) calls

lookup-run_call :
    (call : Call) (j : Text) (dm : DeviceManager)
    → lookup j (run_call call dm).sessions ≡ (
        if text_eq (device_of call) j
        then after (lookup j dm.sessions) call
        else lookup j dm.sessions)
unfolding run_call
lookup-run_call (adds id s) j dm = lookup-add_device id j s dm
lookup-run_call (removes id) j dm = lookup-remove_device id j dm

is_closed-run_call :
    (call : Call) (s : ℕ) (dm : DeviceManager)
    → is_closed s (run_call call dm).closed
      ≡ (closes s (lookup (device_of call) dm.sessions) || is_closed s dm.closed)
unfolding run_call add_device remove_device is_closed
is_closed-run_call (adds id t) s dm = elim (Option-cases (lookup id dm.sessions)) [
  | inl e ↦ ground (arith, e)
  | inr (old, e) ↦ ground (arith, e)
]
is_closed-run_call (removes id) s dm = elim (Option-cases (lookup id dm.sessions)) [
  | inl e ↦ ground (arith, e)
  | inr (old, e) ↦ ground (arith, e)
]

-- Of a device, a history leaves what its own calls leave.
lookup-run_calls :
    (calls : List Call) (j : Text) (dm : DeviceManager)
    → lookup j (run_calls calls dm).sessions
      ≡ session_after (lookup j dm.sessions) (calls_of j calls)
unfolding run_calls
lookup-run_calls [] j dm = refl
lookup-run_calls (call ∷ calls) j dm = elim (Bool-cases (text_eq (device_of call) j)) [
  | inl e ↦ ground (arith, lookup-run_calls calls j (run_call call dm), lookup-run_call call j dm)
  | inr e ↦ ground (arith, lookup-run_calls calls j (run_call call dm), lookup-run_call call j dm)
]

-- A call's own device, and what the later calls of a device close, seen from before the call.
closes_any-run_call :
    (s : ℕ) (call : Call) (calls : List Call) (j : Text) (dm : DeviceManager)
    → closes_any s (lookup j dm.sessions) (calls_of j (call ∷ calls)) ≡ (
        (text_eq (device_of call) j && closes s (lookup j dm.sessions))
        || closes_any s (lookup j (run_call call dm).sessions) (calls_of j calls))
closes_any-run_call s call calls j dm = elim (Bool-cases (text_eq (device_of call) j)) [
  | inl e ↦ ground (arith, lookup-run_call call j dm)
  | inr e ↦ ground (arith, lookup-run_call call j dm)
]

-- What a history closes is what the calls of some device close.
abbrev IsClosedBy : ℕ → List Call → DeviceManager → Type 0
IsClosedBy s calls dm =
    (is_closed s dm.closed ≡ true)
    ⊎ ((j : Text) × (closes_any s (lookup j dm.sessions) (calls_of j calls) ≡ true))

is_closed-run_calls :
    (calls : List Call) (s : ℕ) (dm : DeviceManager)
    → (is_closed s (run_calls calls dm).closed ≡ true) ↔ IsClosedBy s calls dm
unfolding run_calls
is_closed-run_calls [] s dm = (λ h. inl h, λ h. elim h [ inl c ↦ c | inr (j, c) ↦ absurd (cc) ])
is_closed-run_calls (call ∷ calls) s dm =
    let k = device_of call in
    let (fwd, bwd) = is_closed-run_calls calls s (run_call call dm) in
    (
      λ h. elim (fwd h) [
        | inl c ↦ elim (Bool-cases (is_closed s dm.closed)) [
          | inl old ↦ inl old
          | inr open' ↦ inr (
            k,
            ground (
              arith,
              is_closed-run_call call s dm,
              closes_any-run_call s call calls k dm,
              text_eq_iff k k,
            ),
          )
        ]
        | inr (j, c) ↦ inr (j, ground (arith, closes_any-run_call s call calls j dm))
      ],
      λ h. elim h [
        | inl c ↦ bwd (inl (ground (arith, is_closed-run_call call s dm)))
        | inr (j, c) ↦
            elim (Bool-cases
              (closes_any s (lookup j (run_call call dm).sessions) (calls_of j calls))) [
                | inl late ↦ bwd (inr (j, late))
                | inr never ↦ bwd (
                    inl (
                      ground (
                        arith,
                        is_closed-run_call call s dm,
                        closes_any-run_call s call calls j dm,
                        text_eq_iff k j,
                      )))
              ]
      ],
    )

-- Two managers that no caller can tell apart: they hold the same devices, and the same sessions are closed.
abbrev pub Same : DeviceManager → DeviceManager → Type 0
Same m n =
    ((j : Text) → lookup j m.sessions ≡ lookup j n.sessions)
    × ((s : ℕ) → is_closed s m.closed ≡ is_closed s n.closed)

true_iff→≡ : (a b : Bool) → (a ≡ true) ↔ (b ≡ true) → a ≡ b
true_iff→≡ true b h = sym (h.0 refl)
true_iff→≡ false true h = h.1 refl
true_iff→≡ false false h = refl

IsClosedBy-Same :
    (s : ℕ) (calls other : List Call) (m n : DeviceManager)
    → ((id : Text) → calls_of id calls ≡ calls_of id other)
    → Same m n
    → IsClosedBy s calls m
    → IsClosedBy s other n
IsClosedBy-Same s calls other m n own (held, shut) (inl c) = inl (sym (shut s) ∙ c)
IsClosedBy-Same s calls other m n own (held, shut) (inr (j, c)) =
    inr (j, rw (sym (own j), sym (held j)) c)

Same-sym : (m n : DeviceManager) → Same m n → Same n m
Same-sym m n (held, shut) = (λ j. sym (held j), λ s. sym (shut s))

-- Histories with the same calls of each device, of managers that are the same.
pub run_calls-Same :
    (calls other : List Call) (m n : DeviceManager)
    → ((id : Text) → calls_of id calls ≡ calls_of id other)
    → Same m n
    → Same (run_calls calls m) (run_calls other n)
run_calls-Same calls other m n own (held, shut) = (
  λ j. ground (arith, lookup-run_calls calls j m, lookup-run_calls other j n, own j, held j),
  λ s. true_iff→≡ _ _ (
    λ h.
        (is_closed-run_calls other s n).1 (
          IsClosedBy-Same s calls other m n own (held, shut) ((is_closed-run_calls calls s m).0 h)),
    λ h. (is_closed-run_calls calls s m).1 (
        IsClosedBy-Same s other calls n m (λ id. sym (own id)) (Same-sym m n (held, shut))
          ((is_closed-run_calls other s n).0 h)),
  ),
)
