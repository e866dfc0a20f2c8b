-- ===== src/Server/Reachability.antt =====
-- ssh/server: what holds of a client's context after any history of callbacks, each with the device
-- map and the agent of its own moment.
use mini_shellhub.Prelude.{
  ℕ, Text, List, [], ◌∷◌, ◌≡◌, refl, Option, none, some, Result, ok, err, panic, Bool, true, false,
  ltb, if◌then◌else◌, Bool-cases, arith, get_elem?, Option-cases, Result-cases, inl, inr, codes,
}
use mini_shellhub.Host.{new_host}
use mini_shellhub.Target.{new_target}
use mini_shellhub.Tunnel.{Tunnel}
use mini_shellhub.Session.Types.{
  on_error, Context, State, state_nil, state_evaluated, state_registered, state_finished,
  state_value, SessionError, pure,
}
use mini_shellhub.Session.Operations.{
  dial_key, Handshake, auth_password, auth_call, fresh_session, set_conn,
}
use mini_shellhub.Server.{banner_handler, password_handler, publickey_handler}
use mini_shellhub.Server.Banners.{
  opened, banner-bridges, banner_addr_fails, banner_user_fails, banner_dial_fails,
}
use mini_shellhub.Server.Backing.{SnapInv, Inv, auth_call-Inv}
use mini_shellhub.Server.Logins.{password_handler_lem, publickey_handler_lem}

-- A login attempt, with the tunnel and the handshake as they are then.
pub data Login : Type 0 where
  password : Tunnel → Handshake → Text → Login
  publickey : Tunnel → Handshake → Login

unfoldable pub context_step : Context → Login → Context
context_step c (password tunnel handshake pwd) = (password_handler tunnel handshake pwd c).0
context_step c (publickey tunnel handshake) = (publickey_handler tunnel handshake c).0

unfoldable pub context_run : Context → List Login → Context
context_run c [] = c
context_run c (e ∷ es) = context_run (context_step c e) es

-- What the callbacks do to the outcome of `Auth` does not touch the context.
pub on_error_context :
    (r : Context × Result SessionError (Unit {0})) (a b : Bool) → (on_error r a λ _. pure b).0 ≡ r.0
on_error_context (c, ok u) a b = refl
on_error_context (c, err e) a b = refl
on_error_context (c, panic) a b = refl

module _ (tunnel : Tunnel) (handshake : Handshake) (pwd : Text) (c : Context) where
  closing_Inv : Inv c → Inv (if c.has_conn then record c { conn_closed = true } else c)
  closing_Inv v = elim (Bool-cases c.has_conn) [ inl e ↦ rw e v | inr e ↦ rw e v ]

  -- The snapshot's own share of the invariant, and that of a context that holds it.
  snap_of :
      (session : Option ℕ) (state : State)
      → c.snap ≡ some (record { session = session; state = state })
      → Inv c
      → SnapInv (some (record { session = session; state = state })) c.store
  snap_of session state e v = rw e at v

  auth_at :
      (session : Option ℕ)
      → c.snap ≡ some (record { session = session; state = state_evaluated })
      → SnapInv (some (record { session = session; state = state_evaluated })) c.store
      → Inv (auth_call tunnel handshake (auth_password pwd) c).0
  auth_at none e h = absurd (cc)
  auth_at (some p) e h = elim (Option-cases (get_elem? c.store p)) [
    | inl missing ↦ absurd (rw missing at h)
    | inr (s, there) ↦
        auth_call-Inv tunnel handshake pwd c p s (record { snapped = e; stored = there })
          (rw there at h)
  ]

  pub auth_refused :
      (session : Option ℕ)
      → c.snap ≡ some (record { session = session; state = state_finished })
      → (auth_call tunnel handshake (auth_password pwd) c).0 ≡ c
  unfolding auth_call
  auth_refused session e = ground arith

  auth_registered :
      (session : Option ℕ)
      → SnapInv (some (record { session = session; state = state_registered })) c.store
      → ⊥
  auth_registered none h = cc
  auth_registered (some p) h = elim (Option-cases (get_elem? c.store p)) [
    | inl missing ↦ rw missing at h
    | inr (s, there) ↦ rw there at h
  ]

  -- `Auth` keeps the invariant in each state in which the callbacks run it.
  auth_state_Inv :
      (session : Option ℕ) (state : State)
      → c.snap ≡ some (record { session = session; state = state })
      → Inv c
      → ltb (state_value state) 4 ≡ false
      → Inv (auth_call tunnel handshake (auth_password pwd) c).0
  unfolding state_value
  auth_state_Inv session state_evaluated e v h = auth_at session e (snap_of session _ e v)
  auth_state_Inv session state_registered e v h =
      absurd (auth_registered session (snap_of session _ e v))
  auth_state_Inv session state_finished e v h = rw (auth_refused session e) v
  auth_state_Inv session state e v h = absurd (cc)

  password_at :
      (session : Option ℕ) (state : State)
      → c.snap ≡ some (record { session = session; state = state })
      → Inv c
      → Inv (password_handler tunnel handshake pwd c).0
  password_at session state e v =
      rw (password_handler_lem tunnel handshake c session state e pwd)
        (elim (Bool-cases (ltb (state_value state) 4)) [
          | inl early ↦ rw early (closing_Inv v)
          | inr late ↦
              rw
                (
                  late,
                  on_error_context (auth_call tunnel handshake (auth_password pwd) c) false true,
                )
                (auth_state_Inv session state e v late)
        ])

publickey_at :
    (tunnel : Tunnel) (handshake : Handshake) (c : Context) (session : Option ℕ) (state : State)
    → c.snap ≡ some (record { session = session; state = state })
    → Inv c
    → Inv (publickey_handler tunnel handshake c).0
publickey_at tunnel handshake c session state e v =
    rw (publickey_handler_lem tunnel handshake c session state e)
      (elim (Bool-cases (ltb (state_value state) 4)) [
        | inl early ↦ rw early v
        | inr late ↦
            rw
              (
                late,
                on_error_context (auth_call tunnel handshake (auth_password (codes "any")) c) true
                    true,
              )
              (auth_state_Inv tunnel handshake (codes "any") c session state e v late)
      ])

fresh-Inv : (c : Context) → c.snap ≡ some (record { session = none; state = state_nil }) → Inv c
fresh-Inv c e = rw e refl

password_fresh :
    (tunnel : Tunnel) (handshake : Handshake) (pwd : Text) (c : Context)
    → c.snap ≡ none
    → (password_handler tunnel handshake pwd c).0.snap
      ≡ some (record { session = none; state = state_nil })
unfolding password_handler state_value
password_fresh tunnel handshake pwd c e = ground arith

publickey_fresh :
    (tunnel : Tunnel) (handshake : Handshake) (c : Context)
    → c.snap ≡ none
    → (publickey_handler tunnel handshake c).0.snap
      ≡ some (record { session = none; state = state_nil })
unfolding publickey_handler state_value
publickey_fresh tunnel handshake c e = ground arith

password-Inv :
    (tunnel : Tunnel) (handshake : Handshake) (pwd : Text) (c : Context)
    → Inv c
    → Inv (password_handler tunnel handshake pwd c).0
password-Inv tunnel handshake pwd c v = elim (Option-cases c.snap) [
  | inl e ↦
      fresh-Inv (password_handler tunnel handshake pwd c).0
        (password_fresh tunnel handshake pwd c e)
  | inr (snap, e) ↦ password_at tunnel handshake pwd c snap.session snap.state e v
]

publickey-Inv :
    (tunnel : Tunnel) (handshake : Handshake) (c : Context)
    → Inv c
    → Inv (publickey_handler tunnel handshake c).0
publickey-Inv tunnel handshake c v = elim (Option-cases c.snap) [
  | inl e ↦
      fresh-Inv (publickey_handler tunnel handshake c).0 (publickey_fresh tunnel handshake c e)
  | inr (snap, e) ↦ publickey_at tunnel handshake c snap.session snap.state e v
]

banner-Inv :
    (tunnel : Tunnel) (user addr id : Text) → Inv (banner_handler tunnel (opened user addr id)).0
unfolding fresh_session set_conn
banner-Inv tunnel user addr id = elim (Result-cases (new_host addr)) [
  | inr bad ↦ rw (banner_addr_fails tunnel user addr id bad) tt
  | inl (h, p) ↦ elim (Result-cases (new_target user)) [
    | inr bad ↦ rw (banner_user_fails tunnel user addr id h p bad) tt
    | inl (t, q) ↦ elim (Result-cases (tunnel.dial (dial_key t.target_data))) [
      | inr bad ↦ rw (banner_dial_fails tunnel user addr id h p t q bad) refl
      | inl (conn, r) ↦ rw (banner-bridges tunnel user addr id h t conn p q r) refl
    ]
  ]
]

context_run-Inv : (c : Context) (es : List Login) → Inv c → Inv (context_run c es)
unfolding context_run context_step
context_run-Inv c [] v = v
context_run-Inv c (password tunnel handshake pwd ∷ es) v =
    context_run-Inv (password_handler tunnel handshake pwd c).0 es
      (password-Inv tunnel handshake pwd c v)
context_run-Inv c (publickey tunnel handshake ∷ es) v =
    context_run-Inv (publickey_handler tunnel handshake c).0 es (publickey-Inv tunnel handshake c v)

-- After the banner and any logins, each with the device map and the agent of its own moment, a context
-- with a snapshot has a session unless its state is StateNil, and that session has an SSH client of the
-- agent exactly if it is finished.
pub history-Inv :
    (tunnel : Tunnel) (user addr id : Text) (es : List Login)
    → Inv (context_run (banner_handler tunnel (opened user addr id)).0 es)
history-Inv tunnel user addr id es = context_run-Inv _ es (banner-Inv tunnel user addr id)
