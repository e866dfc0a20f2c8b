-- ===== src/Agent/Host/Laws.antt =====
-- agent/pkg/agent/server/modes/host: passwords, a forwarded agent's socket, exit statuses, and the
-- shell that panics.
use mini_shellhub.Prelude.{
  ok, Result, refl, Text, List, [], ◌∷◌, ◌++◌, ◌≡◌, ◌≢◌, ◌↔◌, ◌⊎◌, Bool, true, false, some, panic,
  codes, text_eq_iff, arith,
}
use mini_shellhub.Agent.Config.{ℤ, pos}
use mini_shellhub.Agent.Server.{Session, Platform, runs_shell, session_handler, password_handler}
use mini_shellhub.Agent.Server.Laws.{session_handler-runs, forward_agent-socket}
use mini_shellhub.Agent.Host.{
  Authenticator, Effects, nothing, SessionError, password, Cmd, Process, generate_shell_cmd,
  exec_cmd, shell, exec,
}

-- The mode accepts a password exactly if single-user mode is off or the password is that mode's own.
pub password_iff :
    (a : Authenticator) (pass : Text)
    → (password a pass ≡ true) ↔ ((a.single_user_password ≡ []) ⊎ (pass ≡ a.single_user_password))
unfolding password
password_iff a pass = (
  λ h.
      ground
        (arith, text_eq_iff a.single_user_password [], text_eq_iff pass a.single_user_password),
  λ h.
      ground
        (arith, text_eq_iff a.single_user_password [], text_eq_iff pass a.single_user_password),
)

-- The server never asks the mode: it accepts each password that differs from the one of single-user
-- mode, which the mode refuses.
pub single_user_password_ignored :
    (a : Authenticator) (pass : Text)
    → a.single_user_password ≢ []
    → pass ≢ a.single_user_password
    → (password_handler pass ≡ true) × (password a pass ≡ false)
unfolding password password_handler
single_user_password_ignored a pass h k =
    ground (arith, text_eq_iff a.single_user_password [], text_eq_iff pass a.single_user_password)

-- The shell of a client that forwards its agent finds the socket behind the client's own variables.
pub forwarded_socket-shell :
    (o : Platform) (s t : Session) (path : Text) (environ : List Text)
    → s.agent_requested ≡ true
    → session_handler o s ≡ some (runs_shell, t)
    → (sock : Text) × (o.agent_socket ≡ some sock)
      × ((generate_shell_cmd path environ t.auth_sock).env
          ≡ environ ++ (codes "SSH_AUTH_SOCK=" ++ sock) ∷ [])
unfolding generate_shell_cmd
forwarded_socket-shell o s t path environ r h =
    let (request_type, e, f, g) = session_handler-runs o s t runs_shell h in
    let (sock, k, l) = forward_agent-socket o s t r f in (sock, k, ground arith)

-- A command's exit status is sent exactly as it ended, if it started, the connection is known and the copy
-- of its output returns; an empty command is answered with 1, and one that does not start with no status.
pub exec-exit :
    (o : Process) (has_conn : Bool) (path : Text) (words : List Text) (raw : Text)
    (environ : List Text) (code : ℤ)
    → ((r : Effects × Result SessionError (Unit {0})) × (exec o has_conn path words raw environ
          ≡ some r)
        × (r.0.exit ≡ some code))
      ↔ ((words ≡ []) × (code ≡ pos 1)
          ⊎ (words ≢ [])
            × (o.starts (exec_cmd path raw environ) ≡ true)
            × (has_conn ≡ true)
            × (o.copied (exec_cmd path raw environ) ≡ true)
            × (code ≡ o.exit_code (exec_cmd path raw environ)))
unfolding exec
exec-exit o has_conn path [] raw environ code =
    (λ h. ground arith, λ h. ((record nothing { exit = some (pos 1) }, ok tt), refl, ground arith))
exec-exit o has_conn path (w ∷ ws) raw environ code =
    let cmd = exec_cmd path raw environ in
    (
      λ h. ground arith,
      λ h. (
        (record { ran = some cmd; exit = some (o.exit_code cmd) }, ok tt),
        ground arith,
        ground arith,
      ),
    )

-- A shell panics exactly when no terminal can be opened or its command does not start.
pub shell-panics_iff :
    (o : Process) (cmd : Cmd)
    → ((shell o cmd).1 ≡ panic) ↔ ((o.opens_pty ≡ false) ⊎ (o.starts cmd ≡ false))
unfolding shell
shell-panics_iff o cmd = (λ h. ground arith, λ h. ground arith)
