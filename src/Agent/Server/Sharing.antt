-- ===== src/Agent/Server/Sharing.antt =====
-- agent/pkg/agent/server: what the sessions of one connection share, which is the context of the SSH
-- library: sessionRequestCallback (server.go) writes the type of a request into it, the handler of each
-- session (session.go) runs in a goroutine of its own and reads it, and the commands of the shells are
-- stored under the connection's identifier.
use mini_shellhub.Prelude.{
  Reach, here, next, Reach-preserves, Text, List, [], ◌∷◌, ◌++◌, ◌≡◌, ◌↔◌, refl, ap, Bool, true,
  false, ◌||◌, codes, text_eq, Option, none, some, All, arith, text_key, length, ltb, not,
}
use mini_shellhub.Agent.Server.{Platform, Session, Run, session_handler, get_session_type}

-- A session's handler, with what it ran.
pub record Handled : Type 0 where
  pub session : Session
  pub ran : Option (Run × Session)

-- The context's request type, the sessions whose handler has not read it, and those handled.
pub record Conn : Type 0 where
  pub request_type : Option Text
  pub waiting : List Session
  pub handled : List Handled

abbrev pub start : Conn
start = record { request_type = none; waiting = []; handled = [] }

-- `session.Context().SetValue("request_type", requestType)`; then the library runs the handler.
unfoldable pub session_request_callback : Session → Text → Conn → Conn
session_request_callback s request_type c = record c {
  request_type = some request_type;
  waiting = c.waiting ++ record s { request_type = some request_type } ∷ [];
}

-- The handler of a session reads what the context holds by then.
unfoldable pub handle : Platform → Session → List Session → Conn → Conn
handle o s waiting c = record c {
  waiting = waiting;
  handled =
      record { session = s; ran = session_handler o (record s { request_type = c.request_type }) }
      ∷ c.handled;
}

-- Whether a request is made before the handlers of the earlier ones have read theirs, is a parameter.
module _ (o : Platform) (overlaps : Bool) where
  pub data Step (c : Conn) : Conn → Type 0 where
    asks :
        (s : Session) (request_type : Text)
        → (overlaps || not (ltb 0 (length c.waiting))) ≡ true
        → Step c (session_request_callback s request_type c)
    handles :
        (before : List Session) (s : Session) (after : List Session)
        → c.waiting ≡ before ++ s ∷ after
        → Step c (handle o s (before ++ after) c)

-- A session was handled as it asked.
abbrev pub IsOwn : Platform → Handled → Type 0
IsOwn o h = h.ran ≡ session_handler o h.session

-- What the context holds is what each waiting session asked for.
pub record Inv (o : Platform) (c : Conn) : Type 0 where
  pub asked : All (λ (s : Session). c.request_type ≡ s.request_type) c.waiting
  pub own : All (IsOwn o) c.handled

module _ (P : Session → Type 0) where
  All-at :
      (before : List Session) (s : Session) (after : List Session)
      → All P (before ++ s ∷ after)
      → P s
  All-at [] s after a = a.0
  All-at (t ∷ before) s after a = All-at before s after a.1

  All-without :
      (before : List Session) (s : Session) (after : List Session)
      → All P (before ++ s ∷ after)
      → All P (before ++ after)
  All-without [] s after a = a.1
  All-without (t ∷ before) s after a = (a.0, All-without before s after a.1)

none_waits : (ss : List Session) → (false || not (ltb 0 (length ss))) ≡ true → ss ≡ []
none_waits [] h = refl
none_waits (s ∷ ss) h = absurd (ground arith)

module _ {o : Platform} where
  Step-Inv : {c d : Conn} → Step o false c d → Inv o c → Inv o d
  unfolding session_request_callback handle
  Step-Inv {c} (asks s request_type alone) v =
      rw (none_waits c.waiting alone) record { asked = (refl, tt); own = v.own }
  Step-Inv {c} (handles before s after e) v =
      let P : Session → Type 0 = λ t. c.request_type ≡ t.request_type in
      let a : All P (before ++ s ∷ after) = rw e at v.asked in
      record {
        asked = All-without P before s after a;
        own = (
          ap (λ rt. session_handler o (record s { request_type = rt })) (All-at P before s after a),
          v.own,
        );
      }

  alone-Inv : {c : Conn} → Reach (Step o false) start c → Inv o c
  alone-Inv r = Reach-preserves (λ c d. Step-Inv) r (record { asked = tt; own = tt })

-- A shell with a terminal, and a command; neither forwards its agent.
abbrev plain : Bool → Session
plain has_pty = record {
  user = [];
  has_pty = has_pty;
  request_type = none;
  agent_requested = false;
  auth_sock = none;
}

abbrev asks_shell : Conn
asks_shell = session_request_callback (plain true) (codes "shell") start

abbrev asks_both : Conn
asks_both = session_request_callback (plain false) (codes "exec") asks_shell

abbrev shell : Session
shell = record (plain true) { request_type = some (codes "shell") }

abbrev crossed : Platform → Conn
crossed o =
    handle o shell (record (plain false) { request_type = some (codes "exec") } ∷ []) asks_both

crossed-Reach : (o : Platform) → Reach (Step o true) start (crossed o)
unfolding session_request_callback
crossed-Reach o =
    next
      (next (next here (asks (plain true) (codes "shell") refl))
        (asks (plain false) (codes "exec") refl))
      (handles [] shell (record (plain false) { request_type = some (codes "exec") } ∷ []) refl)

crossed-other : (o : Platform) → All (IsOwn o) (crossed o).handled → ⊥
unfolding session_request_callback handle session_handler get_session_type text_eq
crossed-other o h = ground (arith, h.0)

-- Whatever the platform, each session of a connection is run as it asked, in every order of requests
-- and handlers, exactly if no request is made while the handler of an earlier one has yet to read its type.
pub handled_as_asked_iff :
    (o : Platform) (overlaps : Bool)
    → ((c : Conn) → Reach (Step o overlaps) start c → All (IsOwn o) c.handled) ↔ (overlaps ≡ false)
handled_as_asked_iff o true =
    (λ h. absurd (crossed-other o (h (crossed o) (crossed-Reach o))), λ e. absurd (ground arith))
handled_as_asked_iff o false = (λ h. refl, λ e c r. (alone-Inv r).own)
