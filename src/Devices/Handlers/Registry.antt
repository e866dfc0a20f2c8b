-- ===== src/Devices/Handlers/Registry.antt =====
-- ssh/main.go against what it is for: a registry that holds, for each device, at most one live
-- connection. What happens to the server is an event; the registry is what the events so far leave.
pub mod Live
pub mod Refinement
use mini_shellhub.Prelude.{
  ℕ, Text, List, [], ◌∷◌, Option, none, some, lookup, text_key, nat_key, text_eq, if◌then◌else◌,
  ◌==◌, ◌||◌, not,
}
use mini_shellhub.Devices.{is_closed}
use mini_shellhub.Devices.Handlers.{
  World, header_device, Step, connects, breaks, returns, Reach, here, next,
}

-- The live connection of each device.
abbrev pub Registry : Type 0
Registry = Text → Option ℕ

-- A device has connected, with its connection's number; a connection is refused; a connection has
-- broken; the handler of a connection of a device has returned.
pub data Event : Type 0 where
  connected : Text → ℕ → Event
  refused : Event
  broken : ℕ → Event
  returned : Text → Event

abbrev pub without : ℕ → Option ℕ → Option ℕ
without s none = none
without s (some t) = if s == t then none else some t

-- A device that connects holds its new connection in place of any that it had; a connection that breaks
-- is lost to whoever holds it; a handler that returns takes away what its device holds. The other devices
-- keep theirs.
abbrev pub after : Event → Registry → Registry
after (connected device s) r j = if text_eq device j then some s else r j
after refused r j = r j
after (broken s) r j = without s (r j)
after (returned device) r j = if text_eq device j then none else r j

-- What the events leave, the latest first.
abbrev pub holding : List Event → Registry
holding [] device = none
holding (e ∷ events) device = after e (holding events) device

-- The event of a step, by what the request and the libraries answer.
abbrev pub event : {u w : World} → Step u w → Event
event {u} (connects id uid upgrades multiplexes) =
    if text_eq (header_device id uid) [] || not upgrades || not multiplexes
    then refused
    else connected (header_device id uid) u.next
event (breaks s h) = broken s
event (returns s device l c) = returned device

abbrev pub events : {w : World} → Reach w → List Event
events here = []
events (next run step) = event step ∷ events run

-- The registry that a world implements: a session that is registered and not closed.
abbrev pub live_session : List ℕ → Option ℕ → Option ℕ
live_session closed none = none
live_session closed (some s) = if is_closed s closed then none else some s

unfoldable pub registry : World → Registry
registry w device = live_session w.dm.closed (lookup device w.dm.sessions)
