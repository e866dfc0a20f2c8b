-- ===== src/Server/Logins/Retry.antt =====
-- ssh/server/auth and Session.Auth: a second attempt after one that the agent refused.
use mini_shellhub.Prelude.{
  ℕ, Text, ◌≡◌, refl, none, some, ok, true, false, arith, set, get_elem?-set_self,
}
use mini_shellhub.Tunnel.{Tunnel, StreamConn}
use mini_shellhub.Session.Types.{Context, Session, state_evaluated, state_value}
use mini_shellhub.Session.Operations.{set_conn, dial_key, Handshake}
use mini_shellhub.Server.{password_handler}
use mini_shellhub.Server.Logins.{Holds, offer, auth-drops, auth-redials}

module _ (tunnel : Tunnel) (handshake : Handshake) (pwd : Text) (c : Context) (p : ℕ) (s : Session)
    (held : Holds c p s state_evaluated) where
  password-drops :
      (conn : StreamConn)
      → s.agent.conn ≡ some conn
      → handshake conn (offer s pwd) ≡ none
      → password_handler tunnel handshake pwd c
        ≡ (record c { store = set c.store p (set_conn none s) }, ok false)
  unfolding password_handler state_value
  password-drops conn h k =
      ground (arith, held.snapped, auth-drops tunnel handshake pwd c p s held conn h k)

  password-redials :
      (conn : StreamConn) (link : ℕ × ℕ)
      → s.agent.conn ≡ none
      → tunnel.dial (dial_key s.info.device.uid) ≡ ok conn
      → handshake conn (offer s pwd) ≡ some link
      → (password_handler tunnel handshake pwd c).1 ≡ ok true
  unfolding password_handler state_value
  password-redials conn link h d k =
      ground (arith, held.snapped, auth-redials tunnel handshake pwd c p s held conn link h d k)

-- After a password that the agent refused over the connection of an evaluated session, a second
-- attempt dials the device again, and succeeds if that dial and its own handshake do.
password-retry :
    (tunnel tunnel' : Tunnel) (handshake handshake' : Handshake) (pwd pwd' : Text) (c : Context)
    (p : ℕ) (s : Session) (conn conn' : StreamConn) (link : ℕ × ℕ)
    → Holds c p s state_evaluated
    → s.agent.conn ≡ some conn
    → handshake conn (offer s pwd) ≡ none
    → tunnel'.dial (dial_key s.info.device.uid) ≡ ok conn'
    → handshake' conn' (offer s pwd') ≡ some link
    → let (c', refused) = password_handler tunnel handshake pwd c in
      (refused ≡ ok false) × ((password_handler tunnel' handshake' pwd' c').1 ≡ ok true)
unfolding set_conn
password-retry tn tn' hs hs' pwd pwd' c p s conn conn' link v h k d k' =
    rw (password-drops tn hs pwd c p s v conn h k) (
      refl,
      password-redials tn' hs' pwd' (record c { store = set c.store p (set_conn none s) }) p
          (set_conn none s)
          (record {
            snapped = v.snapped;
            stored = get_elem?-set_self c.store p (set_conn none s) s v.stored;
          })
          conn' link refl d k',
    )
