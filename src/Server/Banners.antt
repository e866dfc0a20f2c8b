-- ===== src/Server/Banners.antt =====
-- ssh/server/server.go: what the banner callback leaves in the client's context, on every branch.
use mini_shellhub.Prelude.{
  Text, [], ◌∷◌, ◌≡◌, ◌⊎◌, none, some, ok, err, panic, arith, Result-cases, inl, inr, true, false,
}
use mini_shellhub.Host.{Host, new_host}
use mini_shellhub.Net.{AddrError}
use mini_shellhub.Target.{Target, TargetError, new_target}
use mini_shellhub.Tunnel.{Tunnel, StreamConn, DialError}
use mini_shellhub.Session.Types.{Context, state_created, state_evaluated}
use mini_shellhub.Session.Operations.{fresh_session, set_conn, dial_key}
use mini_shellhub.Server.{no_banner, connection_failed, banner_handler}

-- A client's context before any callback has run.
abbrev pub opened : Text → Text → Text → Context
opened user addr id = record {
  user = user;
  remote_addr = addr;
  session_id = id;
  has_conn = true;
  conn_closed = false;
  snap = none;
  store = [];
}

-- The context after a banner that succeeds.
abbrev pub bridged : Text → Text → Text → Host → Target → StreamConn → Context
bridged user addr id h t conn = record (opened user addr id) {
  snap = some (record { session = some 0; state = state_evaluated });
  store = set_conn (some conn) (fresh_session (opened user addr id) h t) ∷ [];
}

module _ (tunnel : Tunnel) (user addr id : Text) where
  banner-bad_addr :
      (e : AddrError)
      → new_host addr ≡ err e
      → banner_handler tunnel (opened user addr id) ≡ (opened user addr id, ok connection_failed)
  unfolding banner_handler
  banner-bad_addr e h = ground arith

  pub banner-bad_user :
      (h : Host) (e : TargetError)
      → new_host addr ≡ ok h
      → new_target user ≡ err e
      → banner_handler tunnel (opened user addr id) ≡ (opened user addr id, ok connection_failed)
  unfolding banner_handler
  banner-bad_user h e p q = ground arith

  banner-no_dial :
      (h : Host) (t : Target) (e : DialError)
      → new_host addr ≡ ok h
      → new_target user ≡ ok t
      → tunnel.dial (dial_key t.target_data) ≡ err e
      → banner_handler tunnel (opened user addr id) ≡ (
        record (opened user addr id) {
          snap = some (record { session = some 0; state = state_created });
          store = fresh_session (opened user addr id) h t ∷ [];
        },
        ok connection_failed,
      )
  unfolding banner_handler
  banner-no_dial h t e p q r = ground arith

  -- With a client address that parses, a user name that names a target, and a device that the tunnel
  -- reaches under its dial key, the banner is empty, and the context holds one session for that
  -- target, evaluated and with the connection to the agent.
  pub banner-bridges :
      (h : Host) (t : Target) (conn : StreamConn)
      → new_host addr ≡ ok h
      → new_target user ≡ ok t
      → tunnel.dial (dial_key t.target_data) ≡ ok conn
      → banner_handler tunnel (opened user addr id) ≡ (bridged user addr id h t conn, ok no_banner)
  unfolding banner_handler
  banner-bridges h t conn p q r = ground arith

  -- The banner is empty only if the client's address parses, the user name names a target, and the
  -- tunnel reaches the device under its dial key.
  pub banner-no_banner :
      (banner_handler tunnel (opened user addr id)).1 ≡ ok no_banner
      → (h : Host) × (t : Target) × (conn : StreamConn) × (new_host addr ≡ ok h)
        × (new_target user ≡ ok t)
        × (tunnel.dial (dial_key t.target_data) ≡ ok conn)
  unfolding banner_handler
  banner-no_banner b = elim (Result-cases (new_host addr)) [
    | inr bad ↦ absurd (ground arith)
    | inl (h, p) ↦ elim (Result-cases (new_target user)) [
      | inr bad ↦ absurd (ground arith)
      | inl (t, q) ↦ elim (Result-cases (tunnel.dial (dial_key t.target_data))) [
        | inr bad ↦ absurd (ground arith)
        | inl (conn, r) ↦ (h, t, conn, p, q, r)
      ]
    ]
  ]

  -- Where it fails, and what that leaves.
  pub banner_addr_fails :
      ((e : AddrError) × (new_host addr ≡ err e)) ⊎ (new_host addr ≡ panic)
      → (banner_handler tunnel (opened user addr id)).0 ≡ opened user addr id
  unfolding banner_handler
  banner_addr_fails bad = ground arith

  module _ (h : Host) (p : new_host addr ≡ ok h) where
    pub banner_user_fails :
        ((e : TargetError) × (new_target user ≡ err e)) ⊎ (new_target user ≡ panic)
        → (banner_handler tunnel (opened user addr id)).0 ≡ opened user addr id
    unfolding banner_handler
    banner_user_fails bad = ground arith

    pub banner_dial_fails :
        (t : Target)
        → new_target user ≡ ok t
        → ((e : DialError) × (tunnel.dial (dial_key t.target_data) ≡ err e))
          ⊎ (tunnel.dial (dial_key t.target_data) ≡ panic)
        → (banner_handler tunnel (opened user addr id)).0 ≡ record (opened user addr id) {
          snap = some (record { session = some 0; state = state_created });
          store = fresh_session (opened user addr id) h t ∷ [];
        }
    unfolding banner_handler
    banner_dial_fails t q bad = ground arith
