-- ===== src/Agent/Server/Laws.antt =====
-- agent/pkg/agent/server: which operation a session runs, what closing it leaves, and the keepalive's
-- interval.
use mini_shellhub.Prelude.{
  ℕ, ◌*◌, ◌^◌, ◌<◌, Text, ◌≡◌, ◌≢◌, inl, inr, true, none, some, codes, text_eq, text_eq_iff,
  ==_refl, lookup, lookup-insert, lookup-delete, text_key, if◌then◌else◌, arith, Option-cases, ◌==◌,
  ◌||◌,
}
use mini_shellhub.Devices.{is_closed}
use mini_shellhub.Agent.Server.{
  Server, Session, Platform, Run, runs_shell, runs_heredoc, runs_exec, get_session_type,
  forward_agent, session_handler, ssh_handler, close_session, close_conn, register_cmd,
  keepalive_interval,
}

-- A session that runs a shell has a terminal, and one that runs a script on standard input has none;
-- both asked for a shell, and each other request runs as a command. A client that forwards its agent
-- gets none of these unless the forwarding was set up.
pub session_handler-runs :
    (o : Platform) (s t : Session) (r : Run)
    → session_handler o s ≡ some (r, t)
    → (request_type : Text) × (s.request_type ≡ some request_type)
      × (forward_agent o s ≡ some t)
      × (r ≡ (
          if text_eq request_type (codes "shell")
          then (if s.has_pty then runs_shell else runs_heredoc)
          else runs_exec))
unfolding session_handler get_session_type
session_handler-runs o s t r h = elim (Option-cases s.request_type) [
  | inl e ↦ absurd (ground arith)
  | inr (request_type, e) ↦ (request_type, e, ground arith, ground arith)
]

-- Agent forwarding that was set up leaves the listener's socket in the context.
pub forward_agent-socket :
    (o : Platform) (s t : Session)
    → s.agent_requested ≡ true
    → forward_agent o s ≡ some t
    → (sock : Text) × (o.agent_socket ≡ some sock) × (t.auth_sock ≡ some sock)
unfolding forward_agent
forward_agent-socket o s t r h = elim (Option-cases (o.user_ids s.user)) [
  | inl e ↦ absurd (ground arith)
  | inr (ids, e) ↦ elim (Option-cases o.agent_socket) [
    | inl k ↦ absurd (ground arith)
    | inr (sock, k) ↦ (sock, k, ground arith)
  ]
]

-- Closing a session forgets it and closes the connection that was stored for it: the connections that
-- are closed then are that one and those that were before. A session of another identifier keeps its
-- connection.
pub close_session-ssh_handler :
    (id other : Text) (conn c : ℕ) (v : Server)
    → id ≢ other
    → let w = close_session id (ssh_handler true true id conn v).0 in
      (is_closed c w.closed ≡ (conn == c || is_closed c v.closed))
      × (lookup id w.sessions ≡ none)
      × (lookup other w.sessions ≡ lookup other v.sessions)
unfolding close_session ssh_handler is_closed
close_session-ssh_handler id other conn c v h = ground (
  arith,
  lookup-insert id id conn v.sessions,
  lookup-insert id other conn v.sessions,
  lookup-delete id id (ssh_handler true true id conn v).0.sessions,
  lookup-delete id other (ssh_handler true true id conn v).0.sessions,
  text_eq_iff id id,
  text_eq_iff id other,
  ==_refl conn,
)

-- When the connection of a session with a registered command is closed, the command is killed and
-- forgotten, and the command of another session is left as it was.
pub close_conn-register_cmd :
    (id other : Text) (cmd conn : ℕ) (v : Server)
    → id ≢ other
    → let w = close_conn (some id) conn (register_cmd id cmd v) in
      (is_closed cmd w.killed ≡ true)
      × (is_closed conn w.closed ≡ true)
      × (lookup id w.cmds ≡ none)
      × (lookup other w.cmds ≡ lookup other v.cmds)
unfolding close_conn register_cmd is_closed
close_conn-register_cmd id other cmd conn v h = ground (
  arith,
  lookup-insert id id cmd v.cmds,
  lookup-insert id other cmd v.cmds,
  lookup-delete id id (register_cmd id cmd v).cmds,
  lookup-delete id other (register_cmd id cmd v).cmds,
  text_eq_iff id id,
  text_eq_iff id other,
  ==_refl conn,
  ==_refl cmd,
)

-- For every number of seconds that fits a uint32 the interval is positive, does not overflow, and is
-- that number of seconds, or thirty for none.
pub keepalive_interval_bounds :
    (seconds : ℕ)
    → seconds < 2 ^ 32
    → (0 < keepalive_interval seconds)
      × (keepalive_interval seconds < 2 ^ 63)
      × (keepalive_interval seconds ≡ (if seconds == 0 then 30 else seconds) * 10 ^ 9)
unfolding keepalive_interval
keepalive_interval_bounds seconds h = ground arith
