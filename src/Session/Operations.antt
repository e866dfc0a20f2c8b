-- ===== src/Session/Operations.antt =====
-- ssh/session/snapshot.go, auther_minimal.go and session_minimal.go: snapshots, NewSession, Dial,
-- Evaluate and Auth.
use mini_shellhub.Prelude.{
  ℕ, Text, List, [], ◌∷◌, ◌++◌, Option, none, some, Bool, true, false, codes, contains, Result, ok,
  err, panic, if◌then◌else◌,
}
use mini_shellhub.Host.{Host, new_host}
use mini_shellhub.Net.{AddrError}
use mini_shellhub.Target.{Target, TargetError, new_target}
use mini_shellhub.Tunnel.{StreamConn, DialError, Tunnel}
use mini_shellhub.Session.Types.{
  State, state_nil, state_created, state_evaluated, state_registered, state_finished, Session,
  Snapshot, Context, SessionError, err_host, invalid_session_state, err_target, err_dial,
  handshake_failed, M, ◌>>=◌, ◌>>◌, pure, fail, ask, lift, deref, load, store_session, alloc,
}

get_or_make : Option Snapshot → M Snapshot
get_or_make (some snap) c = (c, ok snap)
get_or_make none c = (record c { snap = some fresh }, ok fresh)
  where
    fresh : Snapshot
    fresh = record { session = none; state = state_nil }

unfoldable pub get_snapshot : M Snapshot
unfolding get_or_make
get_snapshot c = get_or_make c.snap c

-- `snap.save` on the snapshot of the context.
unfoldable pub save : ℕ → State → M (Unit {0})
save p state c = (record c { snap = some (record { session = some p; state = state }) }, ok tt)

unfoldable pub retrieve : Snapshot → Option ℕ × State
retrieve snap = (snap.session, snap.state)

unfoldable pub obtain_session : M (Option ℕ × State)
unfolding get_snapshot retrieve
obtain_session = get_snapshot >>= λ snap. pure (retrieve snap)

unfoldable pub fresh_session : Context → Host → Target → Session
fresh_session c h t = record {
  uid = c.session_id;
  agent = record { conn = none; client = none; requests = none; channels = [] };
  client = record { channels = [] };
  next_seat = 0;
  info = record {
    target = t;
    sshid = c.user;
    device = record { uid = t.target_data; name = t.target_data; version = codes "v0.9.3" };
    ip_address = h.host;
    session_type = [];
    term = [];
    handled = false;
  };
}

host_result : Result AddrError Host → Result SessionError Host
host_result (ok h) = ok h
host_result (err e) = err err_host
host_result panic = panic

target_result : Result TargetError Target → Result SessionError Target
target_result (ok t) = ok t
target_result (err e) = err (err_target e)
target_result panic = panic

unfoldable pub new_session : M ℕ
unfolding fresh_session host_result target_result get_snapshot save alloc
new_session = do
  c ← ask
  h ← lift (host_result (new_host c.remote_addr))
  t ← lift (target_result (new_target c.user))
  p ← alloc (fresh_session c h t)
  _ ← get_snapshot
  save p state_created
  pure p

-- The device's identifier, with the default tenant where it names none.
unfoldable pub dial_key : Text → Text
dial_key id = if contains id b':' then id else codes "default:" ++ id

conn_result : Result DialError StreamConn → Result SessionError StreamConn
conn_result (ok conn) = ok conn
conn_result (err e) = err (err_dial e)
conn_result panic = panic

unfoldable pub set_conn : Option StreamConn → Session → Session
set_conn conn s = record s { agent = record (s.agent) { conn = conn } }

unfoldable pub dial : Tunnel → ℕ → M (Unit {0})
unfolding conn_result set_conn load store_session dial_key
dial tunnel p = do
  s ← load p
  conn ← lift (conn_result (tunnel.dial (dial_key s.info.device.uid)))
  store_session p (set_conn (some conn) s)

unfoldable pub evaluate : ℕ → M (Unit {0})
unfolding get_snapshot save
evaluate p = do _ ← get_snapshot; save p state_evaluated

-- The part of the SSH library's client configuration that the program sets: the user, and the
-- passwords that it offers.
pub record ClientConfig : Type 0 where
  pub user : Text
  pub auth : List Text

pub data Auth : Type 0 where
  auth_password : Text → Auth

unfoldable pub apply_auth : Auth → ClientConfig → ClientConfig
apply_auth (auth_password pwd) cfg = record cfg { auth = pwd ∷ [] }

-- The SSH library's client handshake over a connection: a client and its global requests.
abbrev pub Handshake : Type 0
Handshake = StreamConn → ClientConfig → Option (ℕ × ℕ)

may_auth : State → Bool
may_auth state_evaluated = true
may_auth state_registered = true
may_auth _ = false

unfoldable pub set_client : ℕ × ℕ → Session → Session
set_client (client, requests) s = record s {
  agent = record (s.agent) { client = some client; requests = some requests };
}

dial_if_needed : Option StreamConn → Tunnel → ℕ → M (Unit {0})
unfolding dial
dial_if_needed none tunnel p = dial tunnel p
dial_if_needed (some conn) tunnel p = pure tt

-- What follows the handshake: on failure the connection is dropped, so that a later attempt dials.
after_handshake : Option (ℕ × ℕ) → ℕ → Session → M (Unit {0})
unfolding set_conn set_client store_session save
after_handshake none p s = do store_session p (set_conn none s); fail handshake_failed
after_handshake (some link) p s = do store_session p (set_client link s); save p state_finished

auth_session : Tunnel → Handshake → Auth → ℕ → M (Unit {0})
unfolding load apply_auth dial_if_needed after_handshake
auth_session tunnel handshake auth p = do
  s ← load p
  dial_if_needed s.agent.conn tunnel p
  s' ← load p
  conn ← lift (deref s'.agent.conn)
  after_handshake
      (handshake conn (apply_auth auth (record { user = s.info.target.username; auth = [] }))) p s'

-- `sess.Auth`, which works on the session of the context's snapshot.
unfoldable pub auth_call : Tunnel → Handshake → Auth → M (Unit {0})
unfolding get_snapshot retrieve may_auth auth_session
auth_call tunnel handshake auth = do
  snap ← get_snapshot
  let found = retrieve snap
  if may_auth found.1
      then (lift (deref found.0) >>= auth_session tunnel handshake auth)
      else fail invalid_session_state
