-- ===== src/Devices/Handlers/Reconnect.antt =====
-- ssh/main.go: a device that connects can be reached; one that connects again, while the handler of
-- its old connection still waits, is taken off the map by that handler.
use mini_shellhub.Prelude.{
  ℕ, Text, [], ◌≡◌, ◌≢◌, true, false, some, none, arith, ok, lookup, lookup-insert, nat_key,
  text_key, text_eq_iff, insert, inl, inr, lookup-delete, Option-cases,
}
use mini_shellhub.Devices.{is_closed, close_session, add_device, open_stream, YamuxOpen}
use mini_shellhub.Devices.Laws.{
  lookup-add_device, lookup-remove_device, add_device-closes, remove_device-closes,
}
use mini_shellhub.Devices.Handlers.{World, handle_connection, handler_returns, Step, returns, Reach}
use mini_shellhub.Devices.Handlers.Invariant.{Inv, Reach-Inv}

-- The world after a device with a name has connected.
abbrev pub connected : Text → World → World
connected device w = (handle_connection device [] true true w).0

pub connected-lookup :
    (device : Text) (w : World)
    → device ≢ []
    → lookup device (connected device w).dm.sessions ≡ some w.next
unfolding handle_connection
connected-lookup device w h = ground (
  arith,
  lookup-add_device device device w.next w.dm,
  text_eq_iff device device,
  text_eq_iff device [],
)

-- The session that is being registered is not the one that it replaces.
connected-is_open :
    (device : Text) (w : World)
    → Inv w
    → device ≢ []
    → is_closed w.next (connected device w).dm.closed ≡ false
unfolding handle_connection add_device is_closed
connected-is_open device w v h = elim (Option-cases (lookup device w.dm.sessions)) [
  | inl e ↦ ground (arith, v.made w.next, text_eq_iff device [])
  | inr (old, e) ↦
      ground
        (arith, v.made w.next, v.served device old, v.numbered old device, text_eq_iff device [])
]

-- In a reachable world, after a device with a name has connected, OpenStream of its name returns
-- the stream that the library opens on the new session, given that this session is not closed.
pub connected-open_stream :
    (yo : YamuxOpen) (device : Text) (w : World) (stream : ℕ)
    → Reach w
    → device ≢ []
    → yo w.next false ≡ some stream
    → open_stream yo (connected device w).dm device ≡ ok stream
unfolding open_stream
connected-open_stream yo device w stream r h e =
    ground (arith, connected-lookup device w, connected-is_open device w (Reach-Inv r))

-- Connecting or disconnecting one device leaves what is registered for another as it was.
pub devices-isolated :
    (device other : Text) (s : ℕ) (w : World)
    → device ≢ other
    → (lookup other (connected device w).dm.sessions ≡ lookup other w.dm.sessions)
      × (lookup other (handler_returns s device w).dm.sessions ≡ lookup other w.dm.sessions)
unfolding handle_connection handler_returns close_session
devices-isolated device other s w h = ground (
  arith,
  lookup-add_device device other w.next w.dm,
  lookup-remove_device device other w.dm,
  text_eq_iff device other,
  text_eq_iff device [],
)

-- The world in which the handler of session `s` returns after the device has connected again.
abbrev pub reconnected : Text → ℕ → World → World
reconnected device s w = handler_returns s device (connected device w)

module _ (device : Text) (s : ℕ) (w : World) (named : device ≢ []) where
  waits_still :
      Inv w
      → lookup device w.dm.sessions ≡ some s
      → lookup s (connected device w).waiting ≡ some device
  unfolding handle_connection
  waits_still v l =
      ground
        (arith, text_eq_iff device [], lookup-insert w.next s device w.waiting, v.served device s)

  closes_old :
      lookup device w.dm.sessions ≡ some s → is_closed s (connected device w).dm.closed ≡ true
  unfolding handle_connection
  closes_old l = ground (arith, text_eq_iff device [], add_device-closes device w.next s w.dm)

  unregisters : lookup device (reconnected device s w).dm.sessions ≡ none
  unfolding handler_returns close_session
  unregisters =
      ground (
        arith,
        lookup-remove_device device device (connected device w).dm,
        text_eq_iff device device,
      )

  new_waits :
      Inv w
      → lookup device w.dm.sessions ≡ some s
      → lookup w.next (reconnected device s w).waiting ≡ some device
  unfolding handle_connection handler_returns
  new_waits v l = ground (
    arith,
    text_eq_iff device [],
    lookup-insert w.next w.next device w.waiting,
    lookup-delete s w.next (insert w.next device w.waiting),
    v.served device s,
    v.numbered s device,
  )

  closes_new : is_closed w.next (reconnected device s w).dm.closed ≡ true
  unfolding handler_returns close_session is_closed
  closes_new =
      ground (
        arith,
        connected-lookup device w,
        remove_device-closes device w.next (connected device w).dm,
      )

-- Whenever a registered device connects again in a reachable world, its old handler can return next,
-- and then the device is not registered, although its new session's handler still waits; the new
-- session is closed.
pub reconnect_disconnects :
    (device : Text) (s : ℕ) (w : World)
    → Reach w
    → device ≢ []
    → lookup device w.dm.sessions ≡ some s
    → Step (connected device w) (reconnected device s w)
      × (lookup device (reconnected device s w).dm.sessions ≡ none)
      × (lookup w.next (reconnected device s w).waiting ≡ some device)
      × (is_closed w.next (reconnected device s w).dm.closed ≡ true)
reconnect_disconnects device s w r h l = (
  returns s device (waits_still device s w h v l) (closes_old device s w h l),
  unregisters device s w h,
  new_waits device s w h v l,
  closes_new device s w h,
)
  where
    v : Inv w
    v = Reach-Inv r
