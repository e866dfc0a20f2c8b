-- ===== src/Server/Holding.antt =====
-- ssh/server: whether the context of a client holds a session, after the banner and any logins.
use mini_shellhub.Prelude.{
  ℕ, Text, List, [], ◌∷◌, ◌≡◌, ◌⊎◌, ◌≢◌, refl, none, some, ok, true, false, arith, Result-cases,
  Bool-cases, inl, inr, codes, nat_key,
}
use mini_shellhub.Host.{Host, new_host}
use mini_shellhub.Target.{Target, new_target}
use mini_shellhub.Tunnel.{Tunnel}
use mini_shellhub.Session.Types.{
  Context, Session, state_nil, state_created, state_evaluated, state_finished, state_value,
}
use mini_shellhub.Session.Operations.{
  dial_key, Handshake, auth_password, auth_call, set_conn, fresh_session,
}
use mini_shellhub.Server.{banner_handler, password_handler, publickey_handler}
use mini_shellhub.Server.Banners.{
  opened as context_of, banner-bridges, banner_dial_fails, banner_addr_fails, banner_user_fails,
}
use mini_shellhub.Server.Logins.{Holds, password_handler_lem, publickey_handler_lem}
use mini_shellhub.Server.Backing.{Bridged, auth_call-Bridged}
use mini_shellhub.Server.Reachability.{
  Login, password, publickey, context_step, context_run, on_error_context,
}

-- The context holds a session, in one of the states that the callbacks set, and with an SSH client of
-- the agent exactly in the last.
abbrev pub HasSession : Context → Type 0
HasSession c =
    (p : ℕ) × (s : Session) × ((Holds c p s state_created × (s.agent.client ≡ none))
      ⊎ (Holds c p s state_evaluated × (s.agent.client ≡ none))
      ⊎ (Holds c p s state_finished × (s.agent.client ≢ none)))

Bridged-HasSession : {c : Context} {p : ℕ} → Bridged c p → HasSession c
Bridged-HasSession {c} {p} (inl (s, v, n)) = (p, s, inr (inl (v, n)))
Bridged-HasSession {c} {p} (inr (s, v, h)) = (p, s, inr (inr (v, h)))

module _ (c : Context) (p : ℕ) (s : Session) where
  step-created :
      (l : Login) → Holds c p s state_created → Holds (context_step c l) p s state_created
  unfolding context_step password_handler publickey_handler state_value
  step-created (password tunnel handshake pwd) v = elim (Bool-cases c.has_conn) [
    | inl e ↦ record {
      snapped = ground (arith, v.snapped);
      stored = ground (arith, v.snapped, v.stored);
    }
    | inr e ↦ record {
      snapped = ground (arith, v.snapped);
      stored = ground (arith, v.snapped, v.stored);
    }
  ]
  step-created (publickey tunnel handshake) v = record {
    snapped = ground (arith, v.snapped);
    stored = ground (arith, v.snapped, v.stored);
  }

  password-evaluated :
      (tunnel : Tunnel) (handshake : Handshake) (pwd : Text)
      → Holds c p s state_evaluated
      → s.agent.client ≡ none
      → Bridged (password_handler tunnel handshake pwd c).0 p
  unfolding state_value
  password-evaluated tunnel handshake pwd v n =
      rw
        (
          password_handler_lem tunnel handshake c (some p) state_evaluated v.snapped pwd,
          on_error_context (auth_call tunnel handshake (auth_password pwd) c) false true,
        )
        (auth_call-Bridged tunnel handshake pwd c p s v n)

  publickey-evaluated :
      (tunnel : Tunnel) (handshake : Handshake)
      → Holds c p s state_evaluated
      → s.agent.client ≡ none
      → Bridged (publickey_handler tunnel handshake c).0 p
  unfolding state_value
  publickey-evaluated tunnel handshake v n =
      rw
        (
          publickey_handler_lem tunnel handshake c (some p) state_evaluated v.snapped,
          on_error_context (auth_call tunnel handshake (auth_password (codes "any")) c) true true,
        )
        (auth_call-Bridged tunnel handshake (codes "any") c p s v n)

  step-evaluated :
      (l : Login)
      → Holds c p s state_evaluated
      → s.agent.client ≡ none
      → Bridged (context_step c l) p
  unfolding context_step
  step-evaluated (password tunnel handshake pwd) v n = password-evaluated tunnel handshake pwd v n
  step-evaluated (publickey tunnel handshake) v n = publickey-evaluated tunnel handshake v n

  step-finished : (l : Login) → Holds c p s state_finished → context_step c l ≡ c
  unfolding context_step password_handler publickey_handler state_value auth_call
  step-finished (password tunnel handshake pwd) v = ground (arith, v.snapped)
  step-finished (publickey tunnel handshake) v = ground (arith, v.snapped)

pub step-HasSession : (c : Context) (l : Login) → HasSession c → HasSession (context_step c l)
step-HasSession c l (p, s, inl (v, n)) = (p, s, inl (step-created c p s l v, n))
step-HasSession c l (p, s, inr (inl (v, n))) = Bridged-HasSession (step-evaluated c p s l v n)
step-HasSession c l (p, s, inr (inr (v, n))) = rw (step-finished c p s l v) (p, s, inr (inr (v, n)))

-- The context holds none, and no login makes one.
abbrev pub NoSession : Context → Type 0
NoSession c = (c.snap ≡ none) ⊎ (c.snap ≡ some (record { session = none; state = state_nil }))

step-NoSession : (c : Context) (l : Login) → NoSession c → NoSession (context_step c l)
unfolding context_step password_handler publickey_handler state_value
step-NoSession c (password tunnel handshake pwd) v = inr (ground (arith, v))
step-NoSession c (publickey tunnel handshake) v = inr (ground (arith, v))

pub run-HasSession : (c : Context) (es : List Login) → HasSession c → HasSession (context_run c es)
unfolding context_run
run-HasSession c [] v = v
run-HasSession c (l ∷ es) v = run-HasSession (context_step c l) es (step-HasSession c l v)

pub run-NoSession : (c : Context) (es : List Login) → NoSession c → NoSession (context_run c es)
unfolding context_run
run-NoSession c [] v = v
run-NoSession c (l ∷ es) v = run-NoSession (context_step c l) es (step-NoSession c l v)

module _ (tunnel : Tunnel) (user addr id : Text) where
  pub banner-HasSession :
      (h : Host) (t : Target)
      → new_host addr ≡ ok h
      → new_target user ≡ ok t
      → HasSession (banner_handler tunnel (context_of user addr id)).0
  unfolding set_conn fresh_session
  banner-HasSession h t p q = elim (Result-cases (tunnel.dial (dial_key t.target_data))) [
    | inl (conn, r) ↦
        rw (banner-bridges tunnel user addr id h t conn p q r)
          (0, _, inr (inl (record { snapped = refl; stored = refl }, refl)))
    | inr bad ↦
        rw (banner_dial_fails tunnel user addr id h p t q bad)
          (0, _, inl (record { snapped = refl; stored = refl }, refl))
  ]

  -- One or the other, after any logins.
  pub history-cases :
      (es : List Login)
      → HasSession (context_run (banner_handler tunnel (context_of user addr id)).0 es)
        ⊎ NoSession (context_run (banner_handler tunnel (context_of user addr id)).0 es)
  history-cases es =
      let c = (banner_handler tunnel (context_of user addr id)).0 in
      elim (Result-cases (new_host addr)) [
        | inr bad ↦
            inr (run-NoSession c es (rw (banner_addr_fails tunnel user addr id bad) (inl refl)))
        | inl (h, p) ↦ elim (Result-cases (new_target user)) [
          | inr bad ↦
              inr
                (run-NoSession c es (rw (banner_user_fails tunnel user addr id h p bad) (inl refl)))
          | inl (t, q) ↦ inl (run-HasSession c es (banner-HasSession h t p q))
        ]
      ]
