-- ===== src/Devices.antt =====
-- ssh/main.go: the manager of the devices' multiplexed connections (yamux sessions). A session is
-- a number; the pointer's state is whether it is among the closed ones.
pub mod Laws
pub mod Handlers
pub mod Locking
pub mod Interleaving
use mini_shellhub.Prelude.{
  ℕ, ◌≡◌, Text, List, [], ◌∷◌, Bool, true, false, ◌||◌, Option, none, some, Result, ok, err, panic,
  Dict, lookup, text_key, insert, delete, ◌==◌,
}

-- `*yamux.Session`: closing it sets a flag that all holders of the pointer see.
pub record DeviceManager : Type 0 where
  pub sessions : Dict Text ℕ
  pub closed : List ℕ

unfoldable pub is_closed : ℕ → List ℕ → Bool
is_closed s [] = false
is_closed s (c ∷ cs) = c == s || is_closed s cs

-- `session.Close()`.
unfoldable pub close_session : ℕ → DeviceManager → DeviceManager
close_session s dm = record dm { closed = s ∷ dm.closed }

unfoldable pub new_device_manager : DeviceManager
new_device_manager = record { sessions = []; closed = [] }

unfoldable pub close_old : Option ℕ → DeviceManager → DeviceManager
unfolding close_session
close_old none dm = dm
close_old (some old) dm = close_session old dm

unfoldable pub add_device : Text → ℕ → DeviceManager → DeviceManager
unfolding close_old
add_device id s dm =
    let closing = close_old (lookup id dm.sessions) dm in
    record closing { sessions = insert id s closing.sessions }

remove_found : Text → Option ℕ → DeviceManager → DeviceManager
unfolding close_session
remove_found id none dm = dm
remove_found id (some s) dm =
    let closing = close_session s dm in record closing { sessions = delete id closing.sessions }

unfoldable pub remove_device : Text → DeviceManager → DeviceManager
unfolding remove_found
remove_device id dm = remove_found id (lookup id dm.sessions) dm

pub data StreamError : Type 0 where
  not_connected : Text → StreamError
  open_failed : ℕ → StreamError

-- yamux's `Open` on a session, given whether it is closed; `none` is an error of the library.
abbrev pub YamuxOpen : Type 0
YamuxOpen = ℕ → Bool → Option ℕ

open_result : ℕ → Option ℕ → Result StreamError ℕ
open_result s none = err (open_failed s)
open_result s (some stream) = ok stream

open_found : YamuxOpen → Text → Option ℕ → DeviceManager → Result StreamError ℕ
unfolding open_result is_closed
open_found yo id none dm = err (not_connected id)
open_found yo id (some s) dm = open_result s (yo s (is_closed s dm.closed))

unfoldable pub open_stream : YamuxOpen → DeviceManager → Text → Result StreamError ℕ
unfolding open_found
open_stream yo dm id = open_found yo id (lookup id dm.sessions) dm
