-- ===== src/Devices/Laws.antt =====
-- ssh/main.go: the device map and the closed sessions after each operation.
use mini_shellhub.Prelude.{
  ℕ, Text, ◌≡◌, none, some, true, arith, lookup, text_key, lookup-insert, lookup-delete,
  if◌then◌else◌, text_eq, text_eq_iff, ==_refl, Option-cases, inl, inr,
}
use mini_shellhub.Devices.{DeviceManager, is_closed, add_device, remove_device}

-- AddDevice registers the session under its identifier and no other.
pub lookup-add_device :
    (id j : Text) (s : ℕ) (dm : DeviceManager)
    → lookup j (add_device id s dm).sessions
      ≡ (if text_eq id j then some s else lookup j dm.sessions)
unfolding add_device
lookup-add_device id j s dm = elim (Option-cases (lookup id dm.sessions)) [
  | inl e ↦ ground (arith, lookup-insert id j s dm.sessions)
  | inr (old, e) ↦ ground (arith, lookup-insert id j s dm.sessions)
]

pub lookup-remove_device :
    (id j : Text) (dm : DeviceManager)
    → lookup j (remove_device id dm).sessions
      ≡ (if text_eq id j then none else lookup j dm.sessions)
unfolding remove_device
lookup-remove_device id j dm = elim (Option-cases (lookup id dm.sessions)) [
  | inl e ↦ ground (arith, text_eq_iff id j)
  | inr (old, e) ↦ ground (arith, lookup-delete id j dm.sessions)
]

-- A session that AddDevice replaces is closed.
pub add_device-closes :
    (id : Text) (s old : ℕ) (dm : DeviceManager)
    → lookup id dm.sessions ≡ some old
    → is_closed old (add_device id s dm).closed ≡ true
unfolding add_device is_closed
add_device-closes id s old dm h = ground (arith, ==_refl old)

pub remove_device-closes :
    (id : Text) (s : ℕ) (dm : DeviceManager)
    → lookup id dm.sessions ≡ some s
    → is_closed s (remove_device id dm).closed ≡ true
unfolding remove_device is_closed
remove_device-closes id s dm h = ground (arith, ==_refl s)

-- No operation reopens a session.
pub add_device-keeps_closed :
    (id : Text) (s old : ℕ) (dm : DeviceManager)
    → is_closed old dm.closed ≡ true
    → is_closed old (add_device id s dm).closed ≡ true
unfolding add_device is_closed
add_device-keeps_closed id s old dm h = ground arith

pub remove_device-keeps_closed :
    (id : Text) (old : ℕ) (dm : DeviceManager)
    → is_closed old dm.closed ≡ true
    → is_closed old (remove_device id dm).closed ≡ true
unfolding remove_device is_closed
remove_device-keeps_closed id old dm h = ground arith
