-- ===== src/Devices/Handlers/Registry/Live.antt =====
-- ssh/main.go: the live connections after each step of a handler.
use mini_shellhub.Prelude.{
  ℕ, Text, ◌≡◌, false, none, some, arith, lookup, nat_key, text_key, text_eq, text_eq_iff,
  if◌then◌else◌, Option-cases, inl, inr, ◌==◌, ◌||◌,
}
use mini_shellhub.Devices.{DeviceManager, is_closed, close_session, add_device, remove_device}
use mini_shellhub.Devices.Laws.{lookup-add_device, lookup-remove_device}
use mini_shellhub.Devices.Handlers.{World, handler_returns, connection_breaks}
use mini_shellhub.Devices.Handlers.Invariant.{Inv}
use mini_shellhub.Devices.Handlers.Registry.{live_session, registry, without}

is_closed-add_device :
    (id : Text) (s t : ℕ) (dm : DeviceManager)
    → is_closed t (add_device id s dm).closed ≡ (
        elim (lookup id dm.sessions) [ none ↦ false | some old ↦ old == t ]
        || is_closed t dm.closed)
unfolding add_device is_closed
is_closed-add_device id s t dm = elim (Option-cases (lookup id dm.sessions)) [
  | inl e ↦ ground arith
  | inr (old, e) ↦ ground arith
]

is_closed-remove_device :
    (id : Text) (t : ℕ) (dm : DeviceManager)
    → is_closed t (remove_device id dm).closed ≡ (
        elim (lookup id dm.sessions) [ none ↦ false | some old ↦ old == t ]
        || is_closed t dm.closed)
unfolding remove_device is_closed
is_closed-remove_device id t dm = elim (Option-cases (lookup id dm.sessions)) [
  | inl e ↦ ground arith
  | inr (old, e) ↦ ground arith
]

module _ {w : World} (v : Inv w) where
  -- The live connections once a device is added under the next number.
  pub live-add_device :
      (device j : Text)
      → live_session
          (add_device device w.next w.dm).closed
          (lookup j (add_device device w.next w.dm).sessions)
        ≡ (if text_eq device j then some w.next else registry w j)
  unfolding registry
  live-add_device device j = elim (Option-cases (lookup device w.dm.sessions)) [
    | inl e ↦ elim (Option-cases (lookup j w.dm.sessions)) [
      | inl f ↦ ground (
        arith,
        lookup-add_device device j w.next w.dm,
        is_closed-add_device device w.next w.next w.dm,
        v.made w.next,
      )
      | inr (t, f) ↦ ground (
        arith,
        lookup-add_device device j w.next w.dm,
        is_closed-add_device device w.next w.next w.dm,
        is_closed-add_device device w.next t w.dm,
        v.made w.next,
      )
    ]
    | inr (old, e) ↦ elim (Option-cases (lookup j w.dm.sessions)) [
      | inl f ↦ ground (
        arith,
        lookup-add_device device j w.next w.dm,
        is_closed-add_device device w.next w.next w.dm,
        v.made w.next,
        v.served device old,
        v.numbered old device,
      )
      | inr (t, f) ↦ ground (
        arith,
        lookup-add_device device j w.next w.dm,
        is_closed-add_device device w.next w.next w.dm,
        is_closed-add_device device w.next t w.dm,
        v.made w.next,
        v.served device old,
        v.served j t,
        v.numbered old device,
        text_eq_iff device j,
      )
    ]
  ]

  -- The live connections once a handler has returned.
  pub registry-handler_returns :
      (s : ℕ) (device j : Text)
      → lookup s w.waiting ≡ some device
      → registry (handler_returns s device w) j ≡ (if text_eq device j then none else registry w j)
  unfolding registry handler_returns close_session is_closed
  registry-handler_returns s device j h = elim (Option-cases (lookup j w.dm.sessions)) [
    | inl f ↦ ground (arith, lookup-remove_device device j w.dm)
    | inr (t, f) ↦ elim (Option-cases (lookup device w.dm.sessions)) [
      | inl e ↦ ground (
        arith,
        lookup-remove_device device j w.dm,
        is_closed-remove_device device t w.dm,
        v.served j t,
        text_eq_iff device j,
      )
      | inr (old, e) ↦ ground (
        arith,
        lookup-remove_device device j w.dm,
        is_closed-remove_device device t w.dm,
        v.served device old,
        v.served j t,
        text_eq_iff device j,
      )
    ]
  ]

-- The live connections once a session has been closed from outside.
pub registry-breaks :
    (w : World) (s : ℕ) (j : Text) → registry (connection_breaks s w) j ≡ without s (registry w j)
unfolding registry connection_breaks close_session is_closed
registry-breaks w s j = elim (Option-cases (lookup j w.dm.sessions)) [
  | inl f ↦ ground arith
  | inr (t, f) ↦ ground arith
]
