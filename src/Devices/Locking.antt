-- ===== src/Devices/Locking.antt =====
-- ssh/main.go: the mutex of DeviceManager. OpenStream holds its read lock while it waits for yamux's
-- Open; AddDevice and RemoveDevice take the write lock. A call of Lock that waits keeps new readers out,
-- as sync.RWMutex documents.
pub mod Waiting
use mini_shellhub.Prelude.{
  ℕ, ◌+◌, Text, List, [], ◌∷◌, ◌++◌, ◌≡◌, Bool, true, ◌||◌, Option, none, some, lookup, text_key,
}
use mini_shellhub.Devices.{DeviceManager, is_closed, close_session, add_device, remove_device}

pub data Call : Type 0 where
  adds : Text → ℕ → Call
  removes : Text → Call

unfoldable pub run_call : Call → DeviceManager → DeviceManager
run_call (adds id s) dm = add_device id s dm
run_call (removes id) dm = remove_device id dm

pub record Manager : Type 0 where
  pub dm : DeviceManager
  -- The sessions that an OpenStream is opening a stream on, and the calls that wait for the write lock.
  pub opening : List ℕ
  pub waiting : List Call
  -- The number of calls of OpenStream that have got the read lock.
  pub dials : ℕ

opening_at : Option ℕ → List ℕ → List ℕ
opening_at none opening = opening
opening_at (some s) opening = s ∷ opening

-- OpenStream up to `session.Open()`; for a device that is not there it returns at once.
unfoldable pub begin_open : Text → Manager → Manager
unfolding opening_at
begin_open id m = record m {
  opening = opening_at (lookup id m.dm.sessions) m.opening;
  dials = m.dials + 1;
}

-- `prompt` are the sessions on which the library's Open returns by itself; it returns on all that are
-- closed. Which of the waiting calls gets the lock is the runtime's.
module _ (prompt : ℕ → Bool) where
  pub data Step (m : Manager) : Manager → Type 0 where
    opens : (id : Text) → m.waiting ≡ [] → Step m (begin_open id m)
    returns :
        (before : List ℕ) (s : ℕ) (after : List ℕ)
        → m.opening ≡ before ++ s ∷ after
        → (prompt s || is_closed s m.dm.closed) ≡ true
        → Step m (record m { opening = before ++ after })
    calls : (call : Call) → Step m (record m { waiting = call ∷ m.waiting })
    writes :
        (before : List Call) (call : Call) (after : List Call)
        → m.opening ≡ []
        → m.waiting ≡ before ++ call ∷ after
        → Step m (record m { dm = run_call call m.dm; waiting = before ++ after })
    breaks : (s : ℕ) → Step m (record m { dm = close_session s m.dm })
