-- ===== src/Agent/Host.antt =====
-- agent/pkg/agent/server/modes/host: the host mode's authenticator, the commands that it builds, and
-- what its sessions do with them. How a process starts and ends is a parameter.
pub mod Laws
pub mod Running
pub mod Status
pub mod Terminal
pub mod Sftp
use mini_shellhub.Prelude.{
  ℕ, Text, List, [], ◌∷◌, ◌++◌, Bool, true, false, not, ◌&&◌, codes, text_eq, Option, none, some,
  Result, ok, err, panic, if◌then◌else◌,
}
use mini_shellhub.Agent.Config.{ℤ, pos, negsuc}

-- The field `singleUserPassword`; it is empty where single-user mode is off.
pub record Authenticator : Type 0 where
  pub single_user_password : Text

unfoldable pub password : Authenticator → Text → Bool
password a pass =
    if not (text_eq a.single_user_password []) then text_eq pass a.single_user_password else true

-- A key that is nil is refused.
unfoldable pub publickey : Authenticator → Option Text → Bool
publickey a none = false
publickey a (some key) = true

pub record Cmd : Type 0 where
  pub path : Text
  pub args : List Text
  pub env : List Text

-- The environment variable SHELL of the agent, or bash.
unfoldable pub shell_of : Text → Text
shell_of shell = if text_eq shell [] then codes "/bin/bash" else shell

with_auth_sock : Option Text → List Text → List Text
with_auth_sock none env = env
with_auth_sock (some sock) env = env ++ (codes "SSH_AUTH_SOCK=" ++ sock) ∷ []

-- The terminal's name is set to a default that nothing reads.
unfoldable pub generate_shell_cmd : Text → List Text → Option Text → Cmd
unfolding shell_of with_auth_sock
generate_shell_cmd shell environ auth_sock = record {
  path = shell_of shell;
  args = codes "--login" ∷ [];
  env = with_auth_sock auth_sock environ;
}

-- How the platform treats a command: whether a terminal can be opened and the process started, and
-- the exit code of its end (-1 where it has none). `copied` is whether the copy of a command's output, for
-- which Exec waits, returns (Host/Running: without a terminal it may not).
pub record Process : Type 0 where
  pub opens_pty : Bool
  pub starts : Cmd → Bool
  pub copied : Cmd → Bool
  pub exit_code : Cmd → ℤ

pub data SessionError : Type 0 where
  start_failed no_server_conn : SessionError

-- What a session does: the command that is run, and the exit status that is sent to the client.
pub record Effects : Type 0 where
  pub ran : Option Cmd
  pub exit : Option ℤ

abbrev pub nothing : Effects
nothing = record { ran = none; exit = none }

-- `startPty`: none where no terminal is there or the command does not start.
start_pty : Process → Cmd → Bool
start_pty o cmd = o.opens_pty && o.starts cmd

-- A shell sends no exit status itself. Where startPty failed its file is nil, and `pts.Name()` panics.
unfoldable pub shell : Process → Cmd → Effects × Result SessionError (Unit {0})
unfolding start_pty
shell o cmd =
    if start_pty o cmd then (record nothing { ran = some cmd }, ok tt) else (nothing, panic)

-- The heredoc's command is waited for whether it started or not; then its exit code is -1.
unfoldable pub heredoc : Process → Bool → Cmd → Effects × Result SessionError (Unit {0})
heredoc o has_conn cmd =
    if not has_conn
    then (nothing, err no_server_conn)
    else if o.starts cmd
    then (record { ran = some cmd; exit = some (o.exit_code cmd) }, ok tt)
    else (record { ran = none; exit = some (negsuc 0) }, ok tt)

unfoldable pub exec_cmd : Text → Text → List Text → Cmd
unfolding shell_of
exec_cmd shell raw environ = record {
  path = shell_of shell;
  args = codes "-c" ∷ raw ∷ [];
  env = environ;
}

-- `command` is the request's split into words, by the SSH library; `raw` the request as it came. None
-- where Exec does not return.
unfoldable pub exec :
    Process
    → Bool
    → Text
    → List Text
    → Text
    → List Text
    → Option (Effects × Result SessionError (Unit {0}))
unfolding exec_cmd
exec o has_conn shell [] raw environ = some (record nothing { exit = some (pos 1) }, ok tt)
exec o has_conn shell (word ∷ words) raw environ =
    let cmd = exec_cmd shell raw environ in
    if not (o.starts cmd)
    then some (nothing, err start_failed)
    else if not has_conn
    then some (record nothing { ran = some cmd }, err no_server_conn)
    else if not (o.copied cmd)
    then none
    else some (record { ran = some cmd; exit = some (o.exit_code cmd) }, ok tt)
