-- ===== src/Server/Logins.antt =====
-- ssh/server/auth and Session.Auth: what a login attempt does in a context whose session has been
-- evaluated, and what it leaves for the next attempt.
pub mod Retry
use mini_shellhub.Prelude.{
  ℕ, Text, [], ◌∷◌, ◌≡◌, refl, none, some, ok, err, panic, true, false, arith, get_elem?, set,
  get_elem?-set_self, codes, ◌↔◌, ltb, if◌then◌else◌, Option, Option-cases, inl, inr,
}
use mini_shellhub.Tunnel.{Tunnel, StreamConn, DialError}
use mini_shellhub.Session.Types.{
  on_error, Context, Session, State, state_evaluated, state_finished, err_dial, handshake_failed,
  state_value, pure,
}
use mini_shellhub.Session.Operations.{
  set_conn, set_client, dial_key, Handshake, ClientConfig, auth_password, auth_call,
}
use mini_shellhub.Server.{password_handler, publickey_handler}

-- The context's snapshot holds the session `s`, at `p`, in the state.
pub record Holds (c : Context) (p : ℕ) (s : Session) (state : State) : Type 0 where
  pub snapped : c.snap ≡ some (record { session = some p; state = state })
  pub stored : get_elem? c.store p ≡ some s

-- What is offered to the agent: the target's user, and one password.
abbrev pub offer : Session → Text → ClientConfig
offer s pwd = record { user = s.info.target.username; auth = pwd ∷ [] }

module _ (tunnel : Tunnel) (handshake : Handshake) (pwd : Text) (c : Context) (p : ℕ) (s : Session)
    (held : Holds c p s state_evaluated) where
  -- Over the connection that the session has, the handshake decides.
  pub auth-reuses :
      (conn : StreamConn) (link : ℕ × ℕ)
      → s.agent.conn ≡ some conn
      → handshake conn (offer s pwd) ≡ some link
      → auth_call tunnel handshake (auth_password pwd) c ≡ (
        record c {
          snap = some (record { session = some p; state = state_finished });
          store = set c.store p (set_client link s);
        },
        ok tt,
      )
  unfolding auth_call
  auth-reuses conn link h k = ground (arith, held.snapped, held.stored)

  pub auth-drops :
      (conn : StreamConn)
      → s.agent.conn ≡ some conn
      → handshake conn (offer s pwd) ≡ none
      → auth_call tunnel handshake (auth_password pwd) c
        ≡ (record c { store = set c.store p (set_conn none s) }, err handshake_failed)
  unfolding auth_call
  auth-drops conn h k = ground (arith, held.snapped, held.stored)

  pub auth-no_dial :
      (e : DialError)
      → s.agent.conn ≡ none
      → tunnel.dial (dial_key s.info.device.uid) ≡ err e
      → auth_call tunnel handshake (auth_password pwd) c ≡ (c, err (err_dial e))
  unfolding auth_call
  auth-no_dial e h k = ground (arith, held.snapped, held.stored)

  pub auth-dial_panics :
      s.agent.conn ≡ none
      → tunnel.dial (dial_key s.info.device.uid) ≡ panic
      → auth_call tunnel handshake (auth_password pwd) c ≡ (c, panic)
  unfolding auth_call
  auth-dial_panics h k = ground (arith, held.snapped, held.stored)

  pub auth-redials :
      (conn : StreamConn) (link : ℕ × ℕ)
      → s.agent.conn ≡ none
      → tunnel.dial (dial_key s.info.device.uid) ≡ ok conn
      → handshake conn (offer s pwd) ≡ some link
      → auth_call tunnel handshake (auth_password pwd) c ≡ (
        record c {
          snap = some (record { session = some p; state = state_finished });
          store =
              set
                (set c.store p (set_conn (some conn) s))
                p
                (set_client link (set_conn (some conn) s));
        },
        ok tt,
      )
  unfolding auth_call
  auth-redials conn link h d k =
      ground
        (arith, held.snapped, held.stored, get_elem?-set_self c.store p (set_conn (some conn) s) s)

  pub auth-redial_drops :
      (conn : StreamConn)
      → s.agent.conn ≡ none
      → tunnel.dial (dial_key s.info.device.uid) ≡ ok conn
      → handshake conn (offer s pwd) ≡ none
      → auth_call tunnel handshake (auth_password pwd) c ≡ (
        record c {
          store =
              set
                (set c.store p (set_conn (some conn) s))
                p
                (set_conn none (set_conn (some conn) s));
        },
        err handshake_failed,
      )
  unfolding auth_call
  auth-redial_drops conn h d k =
      ground
        (arith, held.snapped, held.stored, get_elem?-set_self c.store p (set_conn (some conn) s) s)

  -- In a context whose session is evaluated and has a connection to the agent, a password is
  -- accepted exactly when the handshake over that connection that offers it, for the target's user,
  -- succeeds.
  pub password-accepts_iff :
      (conn : StreamConn)
      → s.agent.conn ≡ some conn
      → ((password_handler tunnel handshake pwd c).1 ≡ ok true)
        ↔ ((link : ℕ × ℕ) × (handshake conn (offer s pwd) ≡ some link))
  unfolding password_handler state_value
  password-accepts_iff conn h = elim (Option-cases (handshake conn (offer s pwd))) [
    | inl e ↦ (
      λ b. absurd (ground (arith, held.snapped, auth-drops conn h e)),
      λ l. absurd (ground arith),
    )
    | inr (link, e) ↦ (λ b. (link, e), λ l. ground (arith, held.snapped, auth-reuses conn link h e))
  ]

  -- Then the session has the SSH client, and the snapshot is finished.
  pub password-reuses :
      (conn : StreamConn) (link : ℕ × ℕ)
      → s.agent.conn ≡ some conn
      → handshake conn (offer s pwd) ≡ some link
      → password_handler tunnel handshake pwd c ≡ (
        record c {
          snap = some (record { session = some p; state = state_finished });
          store = set c.store p (set_client link s);
        },
        ok true,
      )
  unfolding password_handler state_value
  password-reuses conn link h k = ground (arith, held.snapped, auth-reuses conn link h k)

module _ (tunnel : Tunnel) (handshake : Handshake) (c : Context) (session : Option ℕ)
    (state : State) (snapped : c.snap ≡ some (record { session = session; state = state })) where
  -- The two callbacks by the state of the snapshot.
  pub password_handler_lem :
      (pwd : Text)
      → password_handler tunnel handshake pwd c ≡ (
          if ltb (state_value state) 4
          then ((if c.has_conn then record c { conn_closed = true } else c), ok false)
          else on_error (auth_call tunnel handshake (auth_password pwd) c) false λ _. pure true)
  unfolding password_handler state_value
  password_handler_lem pwd = ground (arith, snapped)

  pub publickey_handler_lem : publickey_handler tunnel handshake c ≡ (
      if ltb (state_value state) 4
      then (c, ok true)
      else on_error
          (auth_call tunnel handshake (auth_password (codes "any")) c)
          true
          λ _. pure true)
  unfolding publickey_handler state_value
  publickey_handler_lem = ground (arith, snapped)

-- In a context whose session is finished, as after a login that succeeded, a further password is
-- refused and changes nothing.
pub password-finished :
    (tunnel : Tunnel) (handshake : Handshake) (pwd : Text) (c : Context) (p : ℕ) (s : Session)
    → Holds c p s state_finished
    → password_handler tunnel handshake pwd c ≡ (c, ok false)
unfolding password_handler state_value auth_call
password-finished tunnel handshake pwd c p s v = ground (arith, v.snapped)
