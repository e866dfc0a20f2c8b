-- ===== src/Agent/Host/Status.antt =====
-- agent/pkg/agent/server/session.go and modes/host/sessioner.go, with ssh/server/channels/session.go: the
-- exit status that the client of a session gets. The handler ignores the mode's errors; when it has
-- returned, the SSH library sends a status of its own unless one was sent, and `final` is the one that
-- the client is sent by what the mode has sent.
use mini_shellhub.Prelude.{
  Text, List, [], ◌∷◌, ◌++◌, ◌≡◌, Bool, true, false, ◌&&◌, Option, none, some, Result, ok, err,
  panic, codes, text_eq, arith, if◌then◌else◌,
}
use mini_shellhub.Agent.Config.{ℤ, pos}
use mini_shellhub.Agent.Server.{Platform, Session, runs_exec, session_handler, get_session_type}
use mini_shellhub.Agent.Modes.{Sessioner, handle_session}
use mini_shellhub.Agent.Host.{
  Process, Effects, SessionError, nothing, generate_shell_cmd, exec_cmd, shell, heredoc, exec,
}
use mini_shellhub.Channels.Requests.{Request, sent, Bridge, agent_loop}
use mini_shellhub.Channels.Requests.Laws.{agent_loop_lem}

-- What the mode reads of a session and of the agent's environment: whether the context has the
-- connection, SHELL, the process's environment, the command as words and raw, and the session's
-- environment.
pub record Input : Type 0 where
  pub has_conn : Bool
  pub shell : Text
  pub environ : List Text
  pub command : List Text
  pub raw_command : Text
  pub session_environ : List Text

-- The host mode, as the server's handler meets it.
abbrev pub Outcome : Type 0
Outcome = Option (Effects × Result SessionError (Unit {0}))

unfoldable pub host_sessioner : Process → Input → Sessioner Outcome
host_sessioner o i = record {
  shell = λ s. some (shell o (generate_shell_cmd i.shell i.environ s.auth_sock));
  heredoc = λ s. some (heredoc o i.has_conn (generate_shell_cmd i.shell i.environ s.auth_sock));
  exec = λ s. exec o i.has_conn i.shell i.command i.raw_command i.session_environ;
}

-- None where the handler does not return, or panics, which ends the agent.
status_of : (Option ℤ → ℤ) → Outcome → Option ℤ
status_of final (some (e, ok _)) = some (final e.exit)
status_of final (some (e, err _)) = some (final e.exit)
status_of final (some (e, panic)) = none
status_of final none = none

unfoldable pub session_status : (Option ℤ → ℤ) → Platform → Sessioner Outcome → Session → Option ℤ
unfolding status_of
session_status final p mode s = status_of final (handle_session mode (some (nothing, ok tt)) p s)

-- The request by which the library sends a status; its payload is the library's.
abbrev pub status_request : (ℤ → Text) → ℤ → Request
status_request encode code = record {
  kind = codes "exit-status";
  want_reply = false;
  payload = encode code;
}

session_handler-exec :
    (p : Platform) (s : Session)
    → s.request_type ≡ some (codes "exec")
    → s.agent_requested ≡ false
    → session_handler p s ≡ some (runs_exec, s)
unfolding session_handler get_session_type text_eq
session_handler-exec p s t a = ground arith

module _ (final : Option ℤ → ℤ) (sent_first : (code : ℤ) → final (some code) ≡ code)
    (sent_last : final none ≡ pos 0) where
  exec_status :
      (p : Platform) (o : Process) (i : Input) (s : Session) (word : Text) (words : List Text)
      → s.request_type ≡ some (codes "exec")
      → s.agent_requested ≡ false
      → i.has_conn ≡ true
      → i.command ≡ word ∷ words
      → o.copied (exec_cmd i.shell i.raw_command i.session_environ) ≡ true
      → let cmd = exec_cmd i.shell i.raw_command i.session_environ in
        session_status final p (host_sessioner o i) s
        ≡ some (if o.starts cmd then o.exit_code cmd else pos 0)
  unfolding session_status handle_session host_sessioner exec
  exec_status p o i s word words t a c w k =
      let cmd = exec_cmd i.shell i.raw_command i.session_environ in
      ground (arith, session_handler-exec p s t a, sent_first (o.exit_code cmd), sent_last)

  -- A shell with a terminal ends with status 0, whatever its own is; the agent panics where it does not
  -- start.
  pub shell_status :
      (p : Platform) (o : Process) (i : Input) (s : Session)
      → s.request_type ≡ some (codes "shell")
      → s.has_pty ≡ true
      → s.agent_requested ≡ false
      → session_status final p (host_sessioner o i) s ≡ (
          if o.opens_pty && o.starts (generate_shell_cmd i.shell i.environ s.auth_sock)
          then some (pos 0)
          else none)
  unfolding session_status handle_session host_sessioner session_handler get_session_type shell
      text_eq
  shell_status p o i s t y a = ground (arith, sent_last)

-- Where the SSH library sends the status that the mode has sent, and else 0, the client of a session
-- that runs a command for which the copy of its output returns, over a connection that is there and without
-- agent forwarding, gets one request behind those that it got before, if the server can send it to the
-- client, and whatever the client answers: the exit status of its command, or 0 if the command could not be
-- started.
pub exec_status_reaches_client :
    (final : Option ℤ → ℤ) (encode : ℤ → Text) (p : Platform) (o : Process) (i : Input)
    (s : Session) (word : Text) (words : List Text) (b : Bridge) (unmarshals answer : Bool)
    → ((code : ℤ) → final (some code) ≡ code)
    → final none ≡ pos 0
    → s.request_type ≡ some (codes "exec")
    → s.agent_requested ≡ false
    → i.has_conn ≡ true
    → i.command ≡ word ∷ words
    → o.copied (exec_cmd i.shell i.raw_command i.session_environ) ≡ true
    → (code : ℤ) × (session_status final p (host_sessioner o i) s ≡ some code)
      × ((agent_loop b (
            record {
              request = status_request encode code;
              unmarshals = unmarshals;
              outcome = sent answer;
            }
            ∷ [])).to_client
          ≡ b.to_client
            ++ record {
              kind = codes "exit-status";
              want_reply = false;
              payload =
                  let cmd = exec_cmd i.shell i.raw_command i.session_environ in
                  encode (if o.starts cmd then o.exit_code cmd else pos 0);
            }
              ∷ [])
exec_status_reaches_client final encode p o i s word words b unmarshals answer f n t a c w k =
    (_, exec_status final f n p o i s word words t a c w k, (agent_loop_lem b _).0)
