-- ===== src/Tests/Devices.antt =====
-- ssh/main.go: devices that connect, break and connect again.
use mini_shellhub.Prelude.{
  here as no_call, next as next_call, [], ◌≡◌, ◌≢◌, refl, none, some, ok, true, nat_key, codes,
  lookup, text_key,
}
use mini_shellhub.Devices.{is_closed, open_stream, new_device_manager, add_device}
use mini_shellhub.Devices.Handlers.{World, start, Step, connects, Reach, here, next}
use mini_shellhub.Devices.Handlers.Invariant.{Inv, Reach-Inv}
use mini_shellhub.Devices.Handlers.Reconnect.{connected, reconnected, reconnect_disconnects}
use mathlib.Core.Quot
use mini_shellhub.Prelude.{arith, Text, List, Bool-cases, text_eq_iff, inl, inr}
use mini_shellhub.Devices.{YamuxOpen}
use mini_shellhub.Devices.Locking.{Call}
use mini_shellhub.Devices.Interleaving.{calls_of}
use mini_shellhub.Devices.Interleaving.Quotient.{run_all, open_at, interleavings_agree}
use mini_shellhub.Devices.Locking.{Manager, adds, removes, calls}
use mini_shellhub.Devices.Locking.Waiting.{Blocked, slow_open_blocks}
use mini_shellhub.Tests.Fixtures.{device_name, multiplexer}
use mini_shellhub.Devices.Handlers.Registry.{holding, events}
use mini_shellhub.Devices.Handlers.Registry.Refinement.{Reach-refines}
use mini_shellhub.Prelude.{◌⊎◌, ◌∷◌, ℕ, false, ◌↔◌, insert, text_eq}
use mini_shellhub.Devices.Handlers.{handle_connection}

abbrev one_device : World
one_device = connected device_name start

one_device-Reach : Reach one_device
one_device-Reach = next here (connects device_name [] true true)

one_device-lookup : lookup device_name one_device.dm.sessions ≡ some 0
unfolding start lookup handle_connection text_eq add_device insert
one_device-lookup = refl

device_named : device_name ≢ []
device_named h = cc

Reach-Inv_example : Inv one_device
Reach-Inv_example = Reach-Inv one_device-Reach

reconnect_disconnects_example :
    Step (connected device_name one_device) (reconnected device_name 0 one_device)
    × (lookup device_name (reconnected device_name 0 one_device).dm.sessions ≡ none)
    × (lookup one_device.next (reconnected device_name 0 one_device).waiting ≡ some device_name)
    × (is_closed one_device.next (reconnected device_name 0 one_device).dm.closed ≡ true)
reconnect_disconnects_example =
    reconnect_disconnects device_name 0 one_device one_device-Reach device_named one_device-lookup

Reach-refines_example : (open_stream multiplexer one_device.dm device_name ≡ ok 100) ↔ (
    (s : ℕ) × (holding (events one_device-Reach) device_name ≡ some s)
    × (multiplexer s false ≡ some 100))
Reach-refines_example = Reach-refines multiplexer device_name 100 one_device-Reach λ s. refl

-- A dial of a device whose Open waits, and another device that connects meanwhile.
abbrev held : Manager
held = record {
  dm = one_device.dm;
  opening = 0 ∷ [];
  waiting = adds (codes "acme:gate") 1 ∷ [];
  dials = 1;
}

abbrev later : Manager
later = record held { waiting = removes device_name ∷ held.waiting }

slow_open_blocks_example : (is_closed 0 later.dm.closed ≡ true) ⊎ Blocked 0 held later
slow_open_blocks_example =
    slow_open_blocks (λ s. false) held later 0 refl refl (λ h. cc)
      (next_call no_call (calls (removes device_name)))

-- Two interleavings of two devices' calls.
abbrev gate : Text
gate = codes "acme:gate"

abbrev door_first : List Call
door_first = adds device_name 0 ∷ adds gate 1 ∷ removes device_name ∷ []

abbrev gate_first : List Call
gate_first = adds gate 1 ∷ adds device_name 0 ∷ removes device_name ∷ []

two_devices : text_eq device_name gate ≡ false
unfolding text_eq
two_devices = refl

same_calls : (id : Text) → calls_of id door_first ≡ calls_of id gate_first
same_calls id = elim (Bool-cases (text_eq device_name id)) [
  | inl d ↦ elim (Bool-cases (text_eq gate id)) [
    | inl g ↦ absurd (
        ground (
          arith,
          text_eq_iff device_name id,
          text_eq_iff gate id,
          text_eq_iff device_name gate,
          two_devices,
        ))
    | inr g ↦ rw (d, g) refl
  ]
  | inr d ↦ elim (Bool-cases (text_eq gate id)) [ inl g ↦ rw (d, g) refl | inr g ↦ rw (d, g) refl ]
]

interleavings_agree_example :
    (run_all door_first (Quot.mk new_device_manager)
      ≡ run_all gate_first (Quot.mk new_device_manager))
    × ((yo : YamuxOpen) (id : Text)
        → open_at yo id (run_all door_first (Quot.mk new_device_manager))
          ≡ open_at yo id (run_all gate_first (Quot.mk new_device_manager)))
interleavings_agree_example =
    interleavings_agree door_first gate_first (Quot.mk new_device_manager) same_calls
