-- ===== src/Devices/Handlers.antt =====
-- ssh/main.go, handleDeviceConnection: one handler for each device connection. A handler registers
-- its session, blocks until the session is closed, and then runs its deferred calls.
pub mod Invariant
pub mod Reconnect
pub mod Registry
use mini_shellhub.Prelude.{
  ℕ, ◌+◌, ◌<◌, Text, [], ◌≡◌, Bool, true, not, some, Dict, lookup, insert, delete, nat_key, text_eq,
  if◌then◌else◌,
}
use mini_shellhub.Devices.{
  DeviceManager, is_closed, close_session, new_device_manager, add_device, remove_device,
}

pub record World : Type 0 where
  pub dm : DeviceManager
  -- The handlers that wait on `session.CloseChan()`: the device of each session.
  pub waiting : Dict ℕ Text
  -- The number of the next session.
  pub next : ℕ

pub data Response : Type 0 where
  bad_request upgrade_failed yamux_failed : Response
  accepted : ℕ → Response

unfoldable pub start : World
unfolding new_device_manager
start = record { dm = new_device_manager; waiting = []; next = 0 }

-- The header X-Device-ID, or X-Device-UID where that is empty.
unfoldable pub header_device : Text → Text → Text
header_device id uid = if text_eq id [] then uid else id

-- The handler up to the wait. Whether the upgrade and the multiplexer succeed is the libraries'.
unfoldable pub handle_connection : Text → Text → Bool → Bool → World → World × Response
unfolding header_device
handle_connection id uid upgrades multiplexes w =
    let device = header_device id uid in
    if text_eq device []
    then (w, bad_request)
    else if not upgrades
    then (w, upgrade_failed)
    else if not multiplexes
    then (w, yamux_failed)
    else (
      record w {
        dm = add_device device w.next w.dm;
        waiting = insert w.next device w.waiting;
        next = w.next + 1;
      },
      accepted w.next,
    )

-- The deferred calls behind the wait: RemoveDevice, then the session's Close.
unfoldable pub handler_returns : ℕ → Text → World → World
handler_returns s device w = record w {
  dm = close_session s (remove_device device w.dm);
  waiting = delete s w.waiting;
}

-- The other end, or the network, closes a session.
unfoldable pub connection_breaks : ℕ → World → World
connection_breaks s w = record w { dm = close_session s w.dm }

-- One step of the server: a handler runs up to its wait, a session breaks, or a handler whose
-- session is closed returns.
pub data Step (v : World) : World → Type 0 where
  connects :
      (id uid : Text) (upgrades multiplexes : Bool)
      → Step v (handle_connection id uid upgrades multiplexes v).0
  breaks : (s : ℕ) → s < v.next → Step v (connection_breaks s v)
  returns :
      (s : ℕ) (device : Text)
      → lookup s v.waiting ≡ some device
      → is_closed s v.dm.closed ≡ true
      → Step v (handler_returns s device v)

pub data Reach : World → Type 0 where
  here : Reach start
  next : {v w : World} → Reach v → Step v w → Reach w
