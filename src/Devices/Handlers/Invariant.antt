-- ===== src/Devices/Handlers/Invariant.antt =====
-- ssh/main.go: what holds between the device map, the waiting handlers and the closed sessions.
use mini_shellhub.Prelude.{
  ℕ, ◌+◌, ◌<◌, Text, ◌≡◌, inl, inr, Bool, true, none, some, arith, lookup, lookup-insert,
  lookup-delete, nat_key, text_key, text_eq_iff, Option-cases, insert,
}
use mini_shellhub.Devices.{is_closed, close_session, add_device, remove_device}
use mini_shellhub.Devices.Laws.{
  lookup-add_device, lookup-remove_device, add_device-keeps_closed, remove_device-keeps_closed,
}
use mini_shellhub.Devices.Handlers.{
  World, start, header_device, handle_connection, handler_returns, connection_breaks, Step,
  connects, breaks, returns, Reach, here, next,
}

pub record Inv (w : World) : Type 0 where
  -- A registered session has a waiting handler, which serves that very device.
  pub served : (id : Text) (s : ℕ) → lookup id w.dm.sessions ≡ some s → lookup s w.waiting ≡ some id
  -- Handlers wait on sessions that were numbered.
  pub numbered : (s : ℕ) (id : Text) → lookup s w.waiting ≡ some id → s < w.next
  -- A session whose handler has returned is closed.
  pub settled : (s : ℕ) → s < w.next → lookup s w.waiting ≡ none → is_closed s w.dm.closed ≡ true
  -- No session is closed before it is made.
  pub made : (s : ℕ) → is_closed s w.dm.closed ≡ true → s < w.next

start-Inv : Inv start
unfolding start lookup is_closed
start-Inv = record {
  served = λ id s h. cc;
  numbered = λ s id h. cc;
  settled = λ s h n. absurd (omega arith);
  made = λ s h. cc;
}

-- The world once a handler waits on a new session.
admits : Text → World → World
admits device w = record w {
  dm = add_device device w.next w.dm;
  waiting = insert w.next device w.waiting;
  next = w.next + 1;
}

module _ {w : World} (v : Inv w) where
  admits-served :
      (device id : Text) (s : ℕ)
      → lookup id (admits device w).dm.sessions ≡ some s
      → lookup s (admits device w).waiting ≡ some id
  unfolding admits
  admits-served device id s h = ground (
    arith,
    lookup-add_device device id w.next w.dm,
    lookup-insert w.next s device w.waiting,
    text_eq_iff device id,
    v.served id s,
    v.numbered s id,
  )

  admits-numbered :
      (device : Text) (s : ℕ) (id : Text)
      → lookup s (admits device w).waiting ≡ some id
      → s < (admits device w).next
  unfolding admits
  admits-numbered device s id h =
      ground (arith, lookup-insert w.next s device w.waiting, v.numbered s id)

  admits-settled :
      (device : Text) (s : ℕ)
      → s < (admits device w).next
      → lookup s (admits device w).waiting ≡ none
      → is_closed s (admits device w).dm.closed ≡ true
  unfolding admits
  admits-settled device s h n = ground (
    arith,
    lookup-insert w.next s device w.waiting,
    v.settled s,
    add_device-keeps_closed device w.next s w.dm,
  )

  admits-made :
      (device : Text) (s : ℕ)
      → is_closed s (admits device w).dm.closed ≡ true
      → s < (admits device w).next
  unfolding admits add_device is_closed
  admits-made device s h = elim (Option-cases (lookup device w.dm.sessions)) [
    | inl e ↦ ground (arith, v.made s)
    | inr (old, e) ↦ ground (arith, v.made s, v.served device old, v.numbered old device)
  ]

  admits-Inv : (device : Text) → Inv (admits device w)
  admits-Inv device = record {
    served = admits-served device;
    numbered = admits-numbered device;
    settled = admits-settled device;
    made = admits-made device;
  }

  pub handle_connection-Inv :
      (id uid : Text) (upgrades multiplexes : Bool)
      → Inv (handle_connection id uid upgrades multiplexes w).0
  unfolding handle_connection admits
  handle_connection-Inv id uid upgrades multiplexes =
      ground (arith, v, admits-Inv (header_device id uid))

  handler_returns-served :
      (s : ℕ) (device : Text)
      → lookup s w.waiting ≡ some device
      → (id : Text) (t : ℕ) → lookup id (handler_returns s device w).dm.sessions ≡ some t
      → lookup t (handler_returns s device w).waiting ≡ some id
  unfolding handler_returns close_session
  handler_returns-served s device held id t h = ground (
    arith,
    lookup-remove_device device id w.dm,
    lookup-delete s t w.waiting,
    text_eq_iff device id,
    v.served id t,
  )

  handler_returns-settled :
      (s : ℕ) (device : Text) (t : ℕ)
      → t < w.next
      → lookup t (handler_returns s device w).waiting ≡ none
      → is_closed t (handler_returns s device w).dm.closed ≡ true
  unfolding handler_returns close_session is_closed
  handler_returns-settled s device t h n =
      ground
        (arith, lookup-delete s t w.waiting, v.settled t, remove_device-keeps_closed device t w.dm)

  handler_returns-made :
      (s : ℕ) (device : Text)
      → lookup s w.waiting ≡ some device
      → (t : ℕ) → is_closed t (handler_returns s device w).dm.closed ≡ true
      → t < w.next
  unfolding handler_returns close_session is_closed remove_device
  handler_returns-made s device held t h = elim (Option-cases (lookup device w.dm.sessions)) [
    | inl e ↦ ground (arith, v.made t, v.numbered s device)
    | inr (old, e) ↦
        ground (arith, v.made t, v.numbered s device, v.served device old, v.numbered old device)
  ]

  pub handler_returns-Inv :
      (s : ℕ) (device : Text) → lookup s w.waiting ≡ some device → Inv (handler_returns s device w)
  unfolding handler_returns
  handler_returns-Inv s device held = record {
    served = handler_returns-served s device held;
    numbered = λ t id h. ground (arith, lookup-delete s t w.waiting, v.numbered t id);
    settled = handler_returns-settled s device;
    made = handler_returns-made s device held;
  }

  pub connection_breaks-Inv : (s : ℕ) → s < w.next → Inv (connection_breaks s w)
  unfolding connection_breaks close_session is_closed
  connection_breaks-Inv s h = record {
    served = v.served;
    numbered = v.numbered;
    settled = λ t l n. ground (arith, v.settled t);
    made = λ t c. ground (arith, v.made t);
  }

pub Step-Inv : {v w : World} → Step v w → Inv v → Inv w
Step-Inv (connects id uid upgrades multiplexes) v =
    handle_connection-Inv v id uid upgrades multiplexes
Step-Inv (breaks s h) v = connection_breaks-Inv v s h
Step-Inv (returns s device l c) v = handler_returns-Inv v s device l

-- In every reachable world a registered session is held by a waiting handler of its own device, and
-- every session whose handler has returned is closed.
pub Reach-Inv : {w : World} → Reach w → Inv w
Reach-Inv here = start-Inv
Reach-Inv (next r s) = Step-Inv s (Reach-Inv r)
