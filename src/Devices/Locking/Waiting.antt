-- ===== src/Devices/Locking/Waiting.antt =====
-- ssh/main.go: who waits for a call of Open that does not return.
use mini_shellhub.Prelude.{
  Reach-before, Reach, here, next, Reach-trans, ℕ, List, [], ◌∷◌, ◌++◌, ◌≡◌, ◌≢◌, ◌⊎◌, inl, inr,
  refl, Bool, true, false, ◌||◌, ◌==◌, lookup, text_key, arith, All, ==_iff, Option-cases,
  Bool-cases,
}
use mini_shellhub.Devices.{DeviceManager, is_closed, close_session, add_device, remove_device}
use mini_shellhub.Devices.Locking.{
  Manager, Call, adds, removes, run_call, begin_open, Step, opens, returns, calls, writes, breaks,
}

-- Whether a number is in a list.
abbrev pub among : ℕ → List ℕ → Bool
among s [] = false
among s (t ∷ ts) = t == s || among s ts

-- A session's Open is under way, a call waits for the write lock, and since then no dial has begun and
-- no device was registered or removed.
pub record Blocked (s : ℕ) (m n : Manager) : Type 0 where
  pub opening : among s n.opening ≡ true
  pub waits : n.waiting ≢ []
  pub dials : n.dials ≡ m.dials
  pub devices : n.dm.sessions ≡ m.dm.sessions

among-without :
    (before : List ℕ) (t : ℕ) (after : List ℕ) (s : ℕ)
    → among s (before ++ t ∷ after) ≡ true
    → (t == s) ≡ false
    → among s (before ++ after) ≡ true
among-without [] t after s h n = ground arith
among-without (b ∷ before) t after s h n = ground (arith, among-without before t after s)

-- Registering and removing devices closes sessions and opens none.
run_call-closed :
    (call : Call) (dm : DeviceManager) (s : ℕ)
    → is_closed s dm.closed ≡ true
    → is_closed s (run_call call dm).closed ≡ true
unfolding run_call add_device remove_device is_closed close_session
run_call-closed (adds id t) dm s h = elim (Option-cases (lookup id dm.sessions)) [
  | inl e ↦ ground arith
  | inr (old, e) ↦ ground arith
]
run_call-closed (removes id) dm s h = elim (Option-cases (lookup id dm.sessions)) [
  | inl e ↦ ground arith
  | inr (old, e) ↦ ground arith
]

Step-closed :
    {prompt : ℕ → Bool} {n o : Manager} (s : ℕ)
    → Step prompt n o
    → is_closed s n.dm.closed ≡ true
    → is_closed s o.dm.closed ≡ true
unfolding begin_open close_session is_closed
Step-closed s (opens id w) h = h
Step-closed s (returns before t after e p) h = h
Step-closed s (calls call) h = h
Step-closed {n} s (writes before call after e w) h = run_call-closed call n.dm s h
Step-closed s (breaks t) h = ground arith

module _ {prompt : ℕ → Bool} {m : Manager} {s : ℕ} (slow : prompt s ≡ false) where
  Step-Blocked :
      {n o : Manager}
      → Step prompt n o
      → Blocked s m n
      → (is_closed s o.dm.closed ≡ true) ⊎ Blocked s m o
  unfolding close_session
  Step-Blocked (opens id w) v = absurd (v.waits w)
  Step-Blocked {n} (returns before t after e p) v = elim (Bool-cases (t == s)) [
    | inl h ↦ let same : t ≡ s = ground (arith, ==_iff t s) in inl (ground (arith, rw same at p))
    | inr h ↦ inr (record {
      opening = among-without before t after s (rw e at v.opening) h;
      waits = v.waits;
      dials = v.dials;
      devices = v.devices;
    })
  ]
  Step-Blocked (calls call) v =
      inr (record { opening = v.opening; waits = λ h. cc; dials = v.dials; devices = v.devices })
  Step-Blocked {n} (writes before call after e w) v = absurd (ground (arith, v.opening))
  Step-Blocked (breaks t) v =
      inr (record { opening = v.opening; waits = v.waits; dials = v.dials; devices = v.devices })

  Reach-Blocked :
      {n o : Manager}
      → Reach (Step prompt) n o
      → Blocked s m n
      → (is_closed s o.dm.closed ≡ true) ⊎ Blocked s m o
  Reach-Blocked here v = inr v
  Reach-Blocked (next r q) v = elim (Reach-Blocked r v) [
    | inl h ↦ inl (Step-closed s q h)
    | inr w ↦ Step-Blocked q w
  ]

-- While a call of OpenStream waits for an Open that does not return by itself, and a device that
-- connects or disconnects waits for the lock, then until the session of that Open is closed no dial
-- begins, to whatever device, and no device is registered or removed.
pub slow_open_blocks :
    (prompt : ℕ → Bool) (m n : Manager) (s : ℕ)
    → prompt s ≡ false
    → among s m.opening ≡ true
    → m.waiting ≢ []
    → Reach (Step prompt) m n
    → (is_closed s n.dm.closed ≡ true) ⊎ Blocked s m n
slow_open_blocks prompt m n s slow o w r =
    Reach-Blocked slow r (record { opening = o; waits = w; dials = refl; devices = refl })

-- An Open that returns by itself, or whose session is closed.
abbrev pub Returns : (ℕ → Bool) → Manager → ℕ → Type 0
Returns prompt m s = (prompt s || is_closed s m.dm.closed) ≡ true

module _ {prompt : ℕ → Bool} where
  all_return :
      (opening : List ℕ) (m : Manager)
      → m.opening ≡ opening
      → All (Returns prompt m) opening
      → (n : Manager) × Reach (Step prompt) m n × (n.opening ≡ [])
  all_return [] m e a = (m, here, e)
  all_return (s ∷ opening) m e a =
      let (n, r, p) = all_return opening (record m { opening = opening }) refl a.1 in
      (n, Reach-before (returns [] s opening e a.0) r, p)

  all_write :
      (waiting : List Call) (m : Manager)
      → m.opening ≡ []
      → m.waiting ≡ waiting
      → (n : Manager) × Reach (Step prompt) m n × (n.opening ≡ []) × (n.waiting ≡ [])
  all_write [] m o e = (m, here, o, e)
  all_write (call ∷ waiting) m o e =
      let (n, r, p, q) =
        all_write waiting (record m { dm = run_call call m.dm; waiting = waiting }) o refl in
      (n, Reach-before (writes [] call waiting o e) r, p, q)

  -- If each Open under way returns by itself or is on a closed session, then all calls can return.
  pub prompt_opens_settle :
      (m : Manager)
      → All (Returns prompt m) m.opening
      → (n : Manager) × Reach (Step prompt) m n × (n.opening ≡ []) × (n.waiting ≡ [])
  prompt_opens_settle m a =
      let (k, t, o) = all_return m.opening m refl a in
      let (n, r, p, q) = all_write k.waiting k o refl in (n, Reach-trans t r, p, q)
