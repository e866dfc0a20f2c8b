-- ===== src/Devices/Interleaving/Quotient.antt =====
-- ssh/main.go: a device manager as its callers see it, without the order of its map and of what it has
-- closed, is a quotient, and the operations are functions of it.
use mini_shellhub.Prelude.{
  ℕ, Text, List, ◌≡◌, refl, ap, Result, arith, lookup, text_key, Option-cases, inl, inr,
}
use mathlib.Core.Quot
use native.Mathlib.Nat.{ℕ_set}
use mathlib.Core.Quot.{Quot, Quot-set}
use mini_shellhub.Devices.{DeviceManager, StreamError, YamuxOpen, open_stream}
use mini_shellhub.Devices.Locking.{Call}
use mini_shellhub.Devices.Interleaving.{calls_of, run_calls, Same, run_calls-Same}

abbrev pub Managers : Type 0
Managers = Quot Same

pub open_stream-Same :
    (yo : YamuxOpen) (id : Text) (m n : DeviceManager)
    → Same m n
    → open_stream yo m id ≡ open_stream yo n id
unfolding open_stream
open_stream-Same yo id m n (held, shut) = elim (Option-cases (lookup id n.sessions)) [
  | inl e ↦ ground (arith, held id)
  | inr (s, e) ↦ ground (arith, held id, shut s)
]

pub Result-set : IsSet (Result StreamError ℕ)
Result-set = hlevel (ℕ_set)

-- AddDevice and RemoveDevice in any order, and OpenStream, of a manager up to what callers can tell.
unfoldable pub run_all : List Call → Managers → Managers
run_all calls =
    Quot.lift Quot-set (λ dm. Quot.mk (run_calls calls dm))
      (λ m n h. Quot.sound (run_calls-Same calls calls m n (λ id. refl) h))

unfoldable pub open_at : YamuxOpen → Text → Managers → Result StreamError ℕ
open_at yo id = Quot.lift Result-set (λ dm. open_stream yo dm id) (open_stream-Same yo id)

run_all-agree :
    (calls other : List Call)
    → ((id : Text) → calls_of id calls ≡ calls_of id other)
    → (m : Managers) → run_all calls m ≡ run_all other m
unfolding run_all
run_all-agree calls other own =
    Quot.ind (λ q. Quot-set _ _)
      (λ dm. Quot.sound (run_calls-Same calls other dm dm own (λ j. refl, λ s. refl)))

-- The handlers of different devices do not meet in the manager: two histories of AddDevice and
-- RemoveDevice that make the same calls of each device, in the same order, but interleave the devices in
-- any two ways, leave the same manager but for the order in its map and of what it has closed, and so
-- OpenStream of every device has the same result after both.
pub interleavings_agree :
    (calls other : List Call) (m : Managers)
    → ((id : Text) → calls_of id calls ≡ calls_of id other)
    → (run_all calls m ≡ run_all other m)
      × ((yo : YamuxOpen) (id : Text)
          → open_at yo id (run_all calls m) ≡ open_at yo id (run_all other m))
interleavings_agree calls other m own =
    let agree = run_all-agree calls other own m in (agree, λ yo id. ap (open_at yo id) agree)
