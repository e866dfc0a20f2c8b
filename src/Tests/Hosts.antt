-- ===== src/Tests/Hosts.antt =====
-- agent/pkg/agent/server: sessions, commands and passwords of a host.
use mini_shellhub.Prelude.{
  Text, [], ◌∷◌, ◌++◌, false, Option, if◌then◌else◌, ◌≡◌, refl, none, some, true, codes, text_eq,
  text_key,
}
use mini_shellhub.Agent.Config.{ℤ, pos}
use mini_shellhub.Agent.Server.{Session, Platform, runs_shell, session_handler}
use mini_shellhub.Agent.Host.{Process, exec_cmd}
use mini_shellhub.Agent.Host.Status.{
  Input, host_sessioner, session_status, status_request, exec_status_reaches_client,
}
use mini_shellhub.Channels.Requests.{sent, agent_loop}
use mini_shellhub.Channels.Shutdown.{start}

abbrev platform : Platform
platform = record {
  user_ids = λ user. some (pos 0, pos 0);
  agent_socket = some (codes "/tmp/a/s");
  directory = λ path. codes "/tmp/a";
  chown = λ path ids. true;
}

abbrev session : Session
session = record {
  user = codes "root";
  has_pty = true;
  request_type = some (codes "shell");
  agent_requested = true;
  auth_sock = none;
}

abbrev forwarding : Session
forwarding = record session { auth_sock = some (codes "/tmp/a/s") }

handles : session_handler platform session ≡ some (runs_shell, forwarding)
unfolding session_handler text_eq
handles = refl

abbrev command : Session
command = record session {
  has_pty = false;
  request_type = some (codes "exec");
  agent_requested = false;
}

-- A platform on which every command starts and ends with status 3.
abbrev process : Process
process = record {
  opens_pty = true;
  starts = λ cmd. true;
  copied = λ cmd. true;
  exit_code = λ cmd. pos 3;
}

abbrev input : Input
input = record {
  has_conn = true;
  shell = [];
  environ = [];
  command = codes "exit" ∷ codes "3" ∷ [];
  raw_command = codes "exit 3";
  session_environ = [];
}

abbrev final : Option ℤ → ℤ
final none = pos 0
final (some code) = code

abbrev encode : ℤ → Text
encode code = []

exec_status_reaches_client_example :
    (code : ℤ) × (session_status final platform (host_sessioner process input) command ≡ some code)
    × ((agent_loop start.bridge (
          record { request = status_request encode code; unmarshals = true; outcome = sent true }
          ∷ [])).to_client
        ≡ start.bridge.to_client
          ++ record {
            kind = codes "exit-status";
            want_reply = false;
            payload =
                let cmd = exec_cmd input.shell input.raw_command input.session_environ in
                encode (if process.starts cmd then process.exit_code cmd else pos 0);
          }
            ∷ [])
exec_status_reaches_client_example =
    exec_status_reaches_client final encode platform process input command (codes "exit")
      (codes "3" ∷ []) start.bridge true true (λ code. refl) refl refl refl refl refl refl
