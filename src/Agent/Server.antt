-- ===== src/Agent/Server.antt =====
-- agent/pkg/agent/server: the agent's SSH server, its sessions and commands, and which of the mode's
-- operations a session runs. The platform's users, sockets and files are parameters.
pub mod Laws
pub mod Keepalive
pub mod Setup
pub mod Sharing
pub mod Hangup
use mini_shellhub.Prelude.{
  ℕ, ◌+◌, ◌*◌, ◌%◌, ◌^◌, ◌/◌, Text, List, [], ◌∷◌, Bool, true, false, not, ◌&&◌, ◌||◌, ◌==◌, ltb,
  leb, codes, text_eq, Option, none, some, Dict, lookup, insert, delete, text_key, if◌then◌else◌,
}
use mini_shellhub.Agent.Config.{ℤ}

pub data SessionType : Type 0 where
  session_type_shell session_type_heredoc session_type_exec session_type_subsystem
        session_type_unknown :
      SessionType

abbrev pub request_type_shell : Text
request_type_shell = codes "shell"

abbrev pub request_type_exec : Text
request_type_exec = codes "exec"

abbrev pub request_type_subsystem : Text
request_type_subsystem = codes "subsystem"

-- The type by the request's; none is the error of a context without a request type.
unfoldable pub get_session_type : Bool → Option Text → Option SessionType
get_session_type is_pty none = none
get_session_type is_pty (some request_type) =
    if is_pty && text_eq request_type request_type_shell
    then some session_type_shell
    else if not is_pty && text_eq request_type request_type_shell
    then some session_type_heredoc
    else if text_eq request_type request_type_exec
    then some session_type_exec
    else if text_eq request_type request_type_subsystem
    then some session_type_subsystem
    else some session_type_unknown

-- What the handler of a session reads and calls of the platform: the user's identifiers as numbers
-- (none where the lookup or a conversion fails), the listener's socket, and changes of owner.
pub record Platform : Type 0 where
  pub user_ids : Text → Option (ℤ × ℤ)
  pub agent_socket : Option Text
  pub directory : Text → Text
  pub chown : Text → ℤ × ℤ → Bool

pub record Session : Type 0 where
  pub user : Text
  pub has_pty : Bool
  pub request_type : Option Text
  pub agent_requested : Bool
  -- The context's value SSH_AUTH_SOCK.
  pub auth_sock : Option Text

pub data Run : Type 0 where
  runs_shell runs_heredoc runs_exec : Run

unfoldable pub run_of : SessionType → Run
run_of session_type_shell = runs_shell
run_of session_type_heredoc = runs_heredoc
run_of _ = runs_exec

owned_socket : Platform → ℤ × ℤ → Text → Session → Option Session
owned_socket o ids sock s =
    if not (o.chown (o.directory sock) ids)
    then none
    else if not (o.chown sock ids)
    then none
    else some (record s { auth_sock = some sock })

listening_socket : Platform → ℤ × ℤ → Option Text → Session → Option Session
unfolding owned_socket
listening_socket o ids none s = none
listening_socket o ids (some sock) s = owned_socket o ids sock s

with_user : Platform → Option (ℤ × ℤ) → Session → Option Session
unfolding listening_socket
with_user o none s = none
with_user o (some ids) s = listening_socket o ids o.agent_socket s

-- The part for a client that forwards its agent; none where the handler returns early.
unfoldable pub forward_agent : Platform → Session → Option Session
unfolding with_user
forward_agent o s = if s.agent_requested then with_user o (o.user_ids s.user) s else some s

run_session : Session → Option SessionType → Option (Run × Session)
unfolding run_of
run_session s none = none
run_session s (some t) = some (run_of t, s)

dispatch : Option Session → Option (Run × Session)
unfolding run_session get_session_type
dispatch none = none
dispatch (some s) = run_session s (get_session_type s.has_pty s.request_type)

-- Which of the mode's operations is run, and on which session; none where the handler returns early.
unfoldable pub session_handler : Platform → Session → Option (Run × Session)
unfolding dispatch forward_agent
session_handler o s = dispatch (forward_agent o s)

-- The fields of the server that change, the connections that were closed, and the commands killed.
pub record Server : Type 0 where
  pub sessions : Dict Text ℕ
  pub cmds : Dict Text ℕ
  pub closed : List ℕ
  pub killed : List ℕ

-- The HTTP handler of a tunnel's connection: whether the writer can be hijacked and is, then the
-- connection under its identifier.
unfoldable pub ssh_handler : Bool → Bool → Text → ℕ → Server → Server × Bool
ssh_handler hijacker hijacks id conn v =
    if not hijacker
    then (v, false)
    else if not hijacks
    then (v, false)
    else (record v { sessions = insert id conn v.sessions }, true)

close_found : Text → Option ℕ → Server → Server
close_found id none v = v
close_found id (some conn) v = record v {
  closed = conn ∷ v.closed;
  sessions = delete id v.sessions;
}

unfoldable pub close_session : Text → Server → Server
unfolding close_found
close_session id v = close_found id (lookup id v.sessions) v

kill_found : Text → Option ℕ → Server → Server
kill_found id none v = v
kill_found id (some cmd) v = record v { killed = cmd ∷ v.killed; cmds = delete id v.cmds }

kill_of : Option Text → Server → Server
unfolding kill_found
kill_of none v = v
kill_of (some id) v = kill_found id (lookup id v.cmds) v

-- `sshConn.Close`, with the context's session identifier, if it has one.
unfoldable pub close_conn : Option Text → ℕ → Server → Server
unfolding kill_of
close_conn id conn v =
    let killing = kill_of id v in record killing { closed = conn ∷ killing.closed }

-- `cmds[id] = cmd`, as the mode's shell writes it in the map that it shares with the server.
unfoldable pub register_cmd : Text → ℕ → Server → Server
register_cmd id cmd v = record v { cmds = insert id cmd v.cmds }

-- The server's own callbacks accept any password and any key.
unfoldable pub password_handler : Text → Bool
password_handler pass = true

unfoldable pub publickey_handler : Text → Bool
publickey_handler key = true

-- The features, by their bits: `iota << 1` for the second and the third constant.
abbrev pub no_feature : ℕ
no_feature = 0

abbrev pub local_port_forward_feature : ℕ
local_port_forward_feature = 2

abbrev pub reverse_port_forward_feature : ℕ
reverse_port_forward_feature = 4

-- `features & feature > 0`, for a feature of one bit.
abbrev pub has_feature : ℕ → ℕ → Bool
has_feature feature features = ltb 0 (features / feature % 2 * feature)

unfoldable pub local_port_forwarding : ℕ → Bool
local_port_forwarding features = has_feature local_port_forward_feature features

unfoldable pub reverse_port_forwarding : ℕ → Bool
reverse_port_forwarding features = has_feature reverse_port_forward_feature features

-- The interval between keepalives: a time.Duration in nanoseconds, as the bit pattern of an int64,
-- from the seconds of a uint32.
unfoldable pub keepalive_interval : ℕ → ℕ
keepalive_interval seconds =
    let interval = seconds * 10 ^ 9 % 2 ^ 64 in
    if interval == 0 || leb (2 ^ 63) interval then 30 * 10 ^ 9 else interval
