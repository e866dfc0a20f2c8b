-- ===== src/Process/Logins.antt =====
-- ssh/server: the callbacks that a client meets before its channels do not panic in a context that
-- holds a session, over a tunnel that does not.
use mini_shellhub.Prelude.{
  ℕ, Text, ◌≡◌, ◌≢◌, refl, some, Bool, ltb, Result, ok, err, panic, true, false, arith,
  Option-cases, Result-cases, inl, inr, lookup, nat_key, text_key, codes,
}
use mini_shellhub.Host.{Host, new_host}
use mini_shellhub.Target.{Target, new_target}
use mini_shellhub.Tunnel.{Tunnel, device_manager_tunnel}
use mini_shellhub.Devices.{DeviceManager, is_closed, YamuxOpen, open_stream}
use mini_shellhub.Session.Types.{
  Context, Session, SessionError, on_error, pure, State, state_created, state_evaluated,
  state_finished, state_value,
}
use mini_shellhub.Session.Operations.{Handshake, auth_password, auth_call, dial_key}
use mini_shellhub.Server.{banner_handler, password_handler, publickey_handler}
use mini_shellhub.Server.Banners.{opened as context_of}
use mini_shellhub.Server.Logins.{
  Holds, offer, auth-reuses, auth-drops, auth-no_dial, auth-redials, auth-redial_drops,
  password_handler_lem, publickey_handler_lem,
}
use mini_shellhub.Server.Holding.{HasSession}

-- The tunnel over the device manager returns a stream or an error.
pub device_dial-not_panic :
    (yo : YamuxOpen) (dm : DeviceManager) (target : Text)
    → (device_manager_tunnel yo dm).dial target ≢ panic
unfolding device_manager_tunnel open_stream
device_dial-not_panic yo dm target h = elim (Option-cases (lookup target dm.sessions)) [
  | inl e ↦ ground (arith, e)
  | inr (s, e) ↦ elim (Option-cases (yo s (is_closed s dm.closed))) [
    | inl f ↦ ground (arith, e, f)
    | inr (st, f) ↦ ground (arith, e, f)
  ]
]

on_error-not_panic :
    (r : Context × Result SessionError (Unit {0})) (a b : Bool)
    → r.1 ≢ panic
    → (on_error r a λ _. pure b).1 ≢ panic
on_error-not_panic (d, ok u) a b n h = cc
on_error-not_panic (d, err e) a b n h = cc
on_error-not_panic (d, panic) a b n h = n refl

module _ (tunnel : Tunnel) (dials : (target : Text) → tunnel.dial target ≢ panic)
    (handshake : Handshake) (pwd : Text) (c : Context) where
  auth-not_panic :
      (p : ℕ) (s : Session)
      → Holds c p s state_evaluated
      → (auth_call tunnel handshake (auth_password pwd) c).1 ≢ panic
  auth-not_panic p s v h = elim (Option-cases s.agent.conn) [
    | inr (conn, e) ↦ elim (Option-cases (handshake conn (offer s pwd))) [
      | inl k ↦ ground (arith, h, auth-drops tunnel handshake pwd c p s v conn e k)
      | inr (link, k) ↦ ground (arith, h, auth-reuses tunnel handshake pwd c p s v conn link e k)
    ]
    | inl e ↦ elim (Result-cases (tunnel.dial (dial_key s.info.device.uid))) [
      | inl (conn, d) ↦ elim (Option-cases (handshake conn (offer s pwd))) [
        | inl k ↦ ground (arith, h, auth-redial_drops tunnel handshake pwd c p s v conn e d k)
        | inr (link, k) ↦
            ground (arith, h, auth-redials tunnel handshake pwd c p s v conn link e d k)
      ]
      | inr (inl (x, d)) ↦ ground (arith, h, auth-no_dial tunnel handshake pwd c p s v x e d)
      | inr (inr d) ↦ dials (dial_key s.info.device.uid) d
    ]
  ]

  finished-not_panic :
      (p : ℕ) (s : Session)
      → Holds c p s state_finished
      → (auth_call tunnel handshake (auth_password pwd) c).1 ≢ panic
  unfolding auth_call
  finished-not_panic p s v h = ground (arith, v.snapped, h)

  -- What the two callbacks do in a state in which they do not call Auth, and in one in which they do.
  early-not_panic :
      (p : ℕ) (s : Session)
      → Holds c p s state_created
      → ((password_handler tunnel handshake pwd c).1 ≢ panic)
        × ((publickey_handler tunnel handshake c).1 ≢ panic)
  unfolding password_handler publickey_handler state_value
  early-not_panic p s v = (λ h. ground (arith, v.snapped, h), λ h. ground (arith, v.snapped, h))

module _ (tunnel : Tunnel) (dials : (target : Text) → tunnel.dial target ≢ panic)
    (handshake : Handshake) (pwd : Text) (c : Context) where
  late-not_panic :
      (p : ℕ) (state : State)
      → c.snap ≡ some (record { session = some p; state = state })
      → ltb (state_value state) 4 ≡ false
      → ((any : Text) → (auth_call tunnel handshake (auth_password any) c).1 ≢ panic)
      → ((password_handler tunnel handshake pwd c).1 ≢ panic)
        × ((publickey_handler tunnel handshake c).1 ≢ panic)
  late-not_panic p state e late n = (
    rw (password_handler_lem tunnel handshake c (some p) state e pwd, late)
        (on_error-not_panic (auth_call tunnel handshake (auth_password pwd) c) false true (n pwd)),
    rw (publickey_handler_lem tunnel handshake c (some p) state e, late)
        (on_error-not_panic (auth_call tunnel handshake (auth_password (codes "any")) c) true true
          (n (codes "any"))),
  )

  -- Neither login callback panics in a context that holds a session.
  pub login-not_panic :
      HasSession c
      → ((password_handler tunnel handshake pwd c).1 ≢ panic)
        × ((publickey_handler tunnel handshake c).1 ≢ panic)
  unfolding state_value
  login-not_panic (p, s, inl (v, n)) = early-not_panic tunnel dials handshake pwd c p s v
  login-not_panic (p, s, inr (inl (v, n))) =
      late-not_panic p state_evaluated v.snapped refl
        (λ any. auth-not_panic tunnel dials handshake any c p s v)
  login-not_panic (p, s, inr (inr (v, n))) =
      late-not_panic p state_finished v.snapped refl
        (λ any. finished-not_panic tunnel dials handshake any c p s v)

module _ (tunnel : Tunnel) (dials : (target : Text) → tunnel.dial target ≢ panic) where
  -- Nor does the banner, for an address that parses and a user that names a target.
  pub banner-not_panic :
      (user addr id : Text) (h : Host) (t : Target)
      → new_host addr ≡ ok h
      → new_target user ≡ ok t
      → (banner_handler tunnel (context_of user addr id)).1 ≢ panic
  unfolding banner_handler
  banner-not_panic user addr id h t p q x = ground (arith, dials (dial_key t.target_data), x)
