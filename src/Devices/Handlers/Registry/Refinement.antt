-- ===== src/Devices/Handlers/Registry/Refinement.antt =====
-- ssh/main.go: the server's registry is what the events leave, and OpenStream opens what it holds.
use mini_shellhub.Prelude.{
  ℕ, Text, ◌≡◌, refl, sym, ◌∙◌, ◌↔◌, Bool, true, false, Option, none, some, ok, arith, lookup,
  nat_key, text_key, text_eq, if◌then◌else◌, Bool-cases, Option-cases, ◌⊎◌, inl, inr, [],
}
use mini_shellhub.Devices.{is_closed, open_stream, YamuxOpen}
use mini_shellhub.Devices.Handlers.{
  World, start, header_device, handle_connection, Step, connects, breaks, returns, Reach, here,
  next,
}
use mini_shellhub.Devices.Handlers.Invariant.{Inv, Reach-Inv}
use mini_shellhub.Devices.Handlers.Registry
use mini_shellhub.Devices.Handlers.Registry.{registry, Event, after, holding, event, events}
use mini_shellhub.Devices.Handlers.Registry.Live.{
  live-add_device, registry-handler_returns, registry-breaks,
}

module _ {w : World} (v : Inv w) where
  handle_connection-refuses :
      (id uid : Text) (upgrades multiplexes : Bool)
      → (text_eq (header_device id uid) [] ≡ true) ⊎ (upgrades ≡ false) ⊎ (multiplexes ≡ false)
      → (handle_connection id uid upgrades multiplexes w).0 ≡ w
  unfolding handle_connection
  handle_connection-refuses id uid upgrades multiplexes h = ground arith

  registry-handle_connection :
      (id uid : Text) (j : Text)
      → text_eq (header_device id uid) [] ≡ false
      → registry (handle_connection id uid true true w).0 j
        ≡ (if text_eq (header_device id uid) j then some w.next else registry w j)
  unfolding handle_connection registry
  registry-handle_connection id uid j h = ground (arith, live-add_device v (header_device id uid) j)

  -- A handler that refuses its connection changes nothing; one that waits has registered it.
  registry-connects :
      (id uid : Text) (upgrades multiplexes : Bool) (j : Text)
      → registry (handle_connection id uid upgrades multiplexes w).0 j
        ≡ after (event {u = w} (connects id uid upgrades multiplexes)) (registry w) j
  registry-connects id uid upgrades multiplexes j =
      elim (Bool-cases (text_eq (header_device id uid) [])) [
        | inl e ↦ ground (arith, handle_connection-refuses id uid upgrades multiplexes (inl e))
        | inr e ↦ ground (
          arith,
          Bool-cases upgrades,
          Bool-cases multiplexes,
          handle_connection-refuses id uid upgrades multiplexes,
          registry-handle_connection id uid j e,
        )
      ]

-- Each step of the server does to its registry what its event does.
registry-step :
    {u w : World}
    → Inv u
    → (step : Step u w) (j : Text) → registry w j ≡ after (event step) (registry u) j
registry-step v (connects id uid upgrades multiplexes) j =
    registry-connects v id uid upgrades multiplexes j
registry-step {u} v (breaks s h) j = registry-breaks u s j
registry-step v (returns s device l c) j = registry-handler_returns v s device j l

after-same :
    (e : Event) (r q : Text → Option ℕ)
    → ((j : Text) → r j ≡ q j)
    → (j : Text) → after e r j ≡ after e q j
after-same (Registry.connected device s) r q h j = rw (h j) refl
after-same Registry.refused r q h j = h j
after-same (Registry.broken s) r q h j = rw (h j) refl
after-same (Registry.returned device) r q h j = rw (h j) refl

registry-start : (j : Text) → registry start j ≡ none
unfolding registry start lookup
registry-start j = refl

registry-holding : {w : World} (run : Reach w) (j : Text) → registry w j ≡ holding (events run) j
registry-holding here j = registry-start j
registry-holding (next {v} {w} run step) j =
    registry-step (Reach-Inv run) step j
    ∙ after-same (event step) (registry v) (holding (events run)) (registry-holding run) j

-- A library that opens no stream on a closed session.
abbrev pub RefusesClosed : YamuxOpen → Type 0
RefusesClosed yo = (s : ℕ) → yo s true ≡ none

-- OpenStream opens what the registry holds.
open_stream-registry :
    (yo : YamuxOpen) (w : World) (device : Text) (stream : ℕ)
    → RefusesClosed yo
    → (open_stream yo w.dm device ≡ ok stream)
      ↔ ((s : ℕ) × (registry w device ≡ some s) × (yo s false ≡ some stream))
unfolding open_stream registry
open_stream-registry yo w device stream r = elim (Option-cases (lookup device w.dm.sessions)) [
  | inl e ↦ (λ h. absurd (ground arith), λ h. absurd (ground arith))
  | inr (s, e) ↦ elim (Bool-cases (is_closed s w.dm.closed)) [
    | inl c ↦ (λ h. absurd (ground (arith, r s)), λ h. absurd (ground arith))
    | inr c ↦ (λ h. (s, ground arith, ground (arith, Option-cases (yo s false))), λ h. ground arith)
  ]
]

-- The server refines the registry of live connections: in every reachable world, with a library that
-- opens no stream on a closed session, OpenStream succeeds on a device exactly if the events so far leave
-- that device a connection and the library opens a stream on it. By the events a device holds the
-- connection with which it last connected, until that breaks or a handler of the same device returns;
-- what happens to other devices changes nothing.
pub Reach-refines :
    {w : World} (yo : YamuxOpen) (device : Text) (stream : ℕ) (run : Reach w)
    → RefusesClosed yo
    → (open_stream yo w.dm device ≡ ok stream)
      ↔ ((s : ℕ) × (holding (events run) device ≡ some s) × (yo s false ≡ some stream))
Reach-refines {w} yo device stream run c =
    rw (sym (registry-holding run device)) (open_stream-registry yo w device stream c)
