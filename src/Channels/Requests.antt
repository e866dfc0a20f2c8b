-- ===== src/Channels/Requests.antt =====
-- ssh/server/channels/session.go: the bodies of the three loops of DefaultSessionHandler, which pass
-- requests between the client's channel and the agent's. What the SSH library answers to a
-- SendRequest, and whether it reads a payload, comes with each request.
pub mod Laws
use mini_shellhub.Prelude.{
  ℕ, ◌+◌, Text, List, [], ◌∷◌, ◌++◌, Bool, true, false, not, ◌&&◌, ◌||◌, codes, text_eq, has_prefix,
  if◌then◌else◌,
}

pub record Request : Type 0 where
  pub kind : Text
  pub want_reply : Bool
  pub payload : Text

-- The answer of the other side, or an error of the connection.
pub data Sent : Type 0 where
  sent : Bool → Sent
  send_failed : Sent

pub record Incoming : Type 0 where
  pub request : Request
  pub unmarshals : Bool
  pub outcome : Sent

-- What the loops of one channel share, and what they have passed on, oldest first.
pub record Bridge : Type 0 where
  pub pipe_started : Bool
  pub session_type : Text
  pub agent_requested : Bool
  pub forwarders : ℕ
  pub to_agent : List Request
  pub to_client : List Request
  pub client_replies : List Bool
  pub agent_replies : List Bool
  pub global_replies : List Bool
  pub rejects : List Text

abbrev pub shell_request_type : Text
shell_request_type = codes "shell"

abbrev pub exec_request_type : Text
exec_request_type = codes "exec"

abbrev pub subsystem_request_type : Text
subsystem_request_type = codes "subsystem"

abbrev pub pty_request_type : Text
pty_request_type = codes "pty-req"

abbrev pub window_change_request_type : Text
window_change_request_type = codes "window-change"

abbrev pub auth_request_openssh_request : Text
auth_request_openssh_request = codes "auth-agent-req@openssh.com"

abbrev pub keep_alive_request_type_prefix : Text
keep_alive_request_type_prefix = codes "keepalive"

abbrev pub keep_alive_request_type : Text
keep_alive_request_type = keep_alive_request_type_prefix ++ codes "@shellhub.io"

-- The first switch on the type of a client's request. Events, announcements and SetPty do nothing.
prepare : Incoming → Bridge → Bridge
prepare i b =
    let kind = i.request.kind in
    let unread = record b {
      rejects = b.rejects ++ codes "failed to recover the session dimensions" ∷ [];
    } in
    if text_eq kind shell_request_type
    then b
    else if text_eq kind exec_request_type || text_eq kind subsystem_request_type
    then record b { session_type = exec_request_type }
    else if text_eq kind pty_request_type || text_eq kind window_change_request_type
    then if i.unmarshals then b else unread
    else if text_eq kind auth_request_openssh_request
    then record b { agent_requested = true; forwarders = b.forwarders + 1 }
    else b

-- The last switch: which requests start the pipe, once.
unfoldable pub starts_pipe : Text → Bool
starts_pipe kind =
    text_eq kind pty_request_type
    || text_eq kind exec_request_type
    || text_eq kind subsystem_request_type

reply_if : Bool → Bool → List Bool → List Bool
reply_if want ok replies = if want then replies ++ ok ∷ [] else replies

after_send : Request → Sent → Bridge → Bridge
unfolding reply_if
after_send r send_failed b = b
after_send r (sent ok) b = record b {
  client_replies = reply_if r.want_reply ok b.client_replies;
  pipe_started = b.pipe_started || starts_pipe r.kind;
}

unfoldable pub on_client_request : Bridge → Incoming → Bridge
unfolding prepare after_send
on_client_request b i =
    let b' = prepare i b in
    after_send i.request i.outcome (record b' { to_agent = b'.to_agent ++ i.request ∷ [] })

after_agent_send : Request → Sent → Bridge → Bridge
unfolding reply_if
after_agent_send r send_failed b = b
after_agent_send r (sent ok) b = record b {
  agent_replies = reply_if r.want_reply ok b.agent_replies;
}

unfoldable pub on_agent_request : Bridge → Incoming → Bridge
unfolding after_agent_send
on_agent_request b i =
    after_agent_send i.request i.outcome (record b { to_client = b.to_client ++ i.request ∷ [] })

-- Whether the loop goes on behind a request that it sent to the client.
goes_on : Sent → Bool
goes_on (sent _) = true
goes_on send_failed = false

unfoldable pub on_global_request : Bridge → Incoming → Bridge × Bool
unfolding goes_on reply_if
on_global_request b i =
    let r = i.request in
    if has_prefix r.kind keep_alive_request_type_prefix
    then (
      record b { to_client = b.to_client ++ record r { kind = keep_alive_request_type } ∷ [] },
      goes_on i.outcome,
    )
    else (record b { global_replies = reply_if r.want_reply false b.global_replies }, true)

unfoldable pub client_loop : Bridge → List Incoming → Bridge
client_loop b [] = b
client_loop b (i ∷ is) = client_loop (on_client_request b i) is

unfoldable pub agent_loop : Bridge → List Incoming → Bridge
agent_loop b [] = b
agent_loop b (i ∷ is) = agent_loop (on_agent_request b i) is

-- The loop over global requests returns when a keepalive cannot be sent.
unfoldable pub global_loop : Bridge → List Incoming → Bridge
global_loop b [] = b
global_loop b (i ∷ is) =
    let (b', more) = on_global_request b i in
    let rest = global_loop b' is in if more then rest else b'
