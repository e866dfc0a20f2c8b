-- ===== src/Agent/Serving.antt =====
-- agent/pkg/agent/modes.go, HostMode.Serve, and agent.go, sshCloseHandler: the server that Listen starts
-- with, and the handler that closes one of its sessions. Both read the agent's authorization through a
-- pointer that is nil before the agent was initialized.
use mini_shellhub.Prelude.{
  ◌*◌, ◌^◌, ◌<◌, ◌==◌, Text, [], ◌≡◌, ◌≢◌, refl, Bool, true, false, Option, none, some,
  Option-cases, inl, inr, Result, ok, err, panic, text_eq_iff, arith, if◌then◌else◌, codes, ◌∷◌,
}
use mini_shellhub.Agent.Config.{Mode, NewAgent, new_agent_with_config, new_agent_with_config-ok_iff}
use mini_shellhub.Agent.Startup.{Agent, AuthResponse, Outside, initialize}
use mini_shellhub.Agent.Startup.Laws.{initialize-ok}
use mini_shellhub.Agent.Host.{Authenticator}
use mini_shellhub.Agent.Server.{
  Server, local_port_forward_feature, close_session, local_port_forwarding, reverse_port_forwarding,
}
use mini_shellhub.Agent.Server.Laws.{keepalive_interval_bounds}
use mini_shellhub.Agent.Server.Setup.{Config, Setup, of_file, no_key, new_server}

-- What Serve makes of an agent: its SSH server, the mode's authenticator, and the server's device name.
pub record Serving : Type 0 where
  pub setup : Setup
  pub authenticator : Authenticator
  pub device_name : Text

-- `log.Fatal` in NewServer.
pub data ServeError : Type 0 where
  no_host_key : ServeError

unfoldable pub host_config : Agent → Config
host_config a = record {
  private_key = a.config.private_key;
  keep_alive_interval = a.config.keep_alive_interval;
  features = local_port_forward_feature;
}

served : Agent → AuthResponse → Option Setup → Result ServeError Serving
served a d none = err no_host_key
served a d (some setup) = ok (record {
  setup = setup;
  authenticator = record { single_user_password = a.config.single_user_password };
  device_name = d.name;
})

serve_with : (Text → Bool) → Bool → Agent → Option AuthResponse → Result ServeError Serving
unfolding served host_config
serve_with loads generates a none = panic
serve_with loads generates a (some d) = served a d (new_server loads generates (host_config a))

unfoldable pub serve : (Text → Bool) → Bool → Agent → Result ServeError Serving
unfolding serve_with
serve loads generates a = serve_with loads generates a a.auth_data

namespace_of : Option AuthResponse → Result (Unit {0}) Text
namespace_of none = panic
namespace_of (some d) = ok d.namespace

-- The session is closed before the log reads the authorization.
unfoldable pub ssh_close_handler : Agent → Text → Server → Server × Result (Unit {0}) Text
unfolding namespace_of
ssh_close_handler a id v = (close_session id v, namespace_of a.auth_data)

-- The setup of an agent that was given a key's file.
abbrev pub setup_of : (Text → Bool) → Agent → Setup
setup_of loads a = record {
  host_key = if loads a.config.private_key then of_file a.config.private_key else no_key;
  interval =
      (if a.config.keep_alive_interval == 0 then 30 else a.config.keep_alive_interval) * 10 ^ 9;
  forwards_local = true;
  forwards_reverse = false;
  channel_types = codes "session" ∷ codes "direct-tcpip" ∷ [];
  subsystems = codes "sftp" ∷ [];
}

new_server-host_config :
    (loads : Text → Bool) (generates : Bool) (a : Agent)
    → a.config.private_key ≢ []
    → a.config.keep_alive_interval < 2 ^ 32
    → new_server loads generates (host_config a) ≡ some (setup_of loads a)
unfolding new_server host_config local_port_forwarding reverse_port_forwarding
new_server-host_config loads generates a n k = ground (
  arith,
  text_eq_iff a.config.private_key [],
  keepalive_interval_bounds a.config.keep_alive_interval k,
)

serve_lem :
    (loads : Text → Bool) (generates : Bool) (a : Agent) (d : AuthResponse)
    → a.auth_data ≡ some d
    → a.config.private_key ≢ []
    → a.config.keep_alive_interval < 2 ^ 32
    → serve loads generates a
      ≡ ok (record {
        setup = setup_of loads a;
        authenticator = record { single_user_password = a.config.single_user_password };
        device_name = d.name;
      })
unfolding serve
serve_lem loads generates a d e n k = rw (e, new_server-host_config loads generates a n k) refl

-- An agent that was made with a configuration that NewAgentWithConfig accepts, and that Initialize has
-- started, comes to serve: its SSH server has the host key of the configured file, or none where the
-- file does not load, permits local port forwarding and no other, and sends a keepalive every configured
-- number of seconds, which fits a uint32, or thirty for none; it has the name that the server gave the
-- device and the configured single-user password, and closing any session does not panic.
pub initialized_serves :
    (parses_uri : Text → Bool) (mode : Option Mode) (made : NewAgent) (o : Outside) (a b : Agent)
    (loads : Text → Bool) (generates : Bool) (id : Text) (v : Server)
    → new_agent_with_config parses_uri a.config mode ≡ ok made
    → initialize o a ≡ (b, ok tt)
    → a.config.keep_alive_interval < 2 ^ 32
    → (s : Serving) × (d : AuthResponse) × (b.auth_data ≡ some d)
      × (serve loads generates b ≡ ok s)
      × (s.device_name ≡ d.name)
      × (s.authenticator.single_user_password ≡ a.config.single_user_password)
      × (s.setup.host_key
          ≡ (if loads a.config.private_key then of_file a.config.private_key else no_key))
      × (s.setup.forwards_local ≡ true)
      × (s.setup.forwards_reverse ≡ false)
      × (s.setup.interval
          ≡ (if a.config.keep_alive_interval == 0 then 30 else a.config.keep_alive_interval)
            * 10 ^ 9)
      × (ssh_close_handler b id v ≡ (close_session id v, ok d.namespace))
unfolding serve ssh_close_handler
initialized_serves parses_uri mode made o a b loads generates id v m i k =
    let key = (new_agent_with_config-ok_iff parses_uri a.config mode made).0 m in
    let started = initialize-ok o a b i in
    let same : b.config ≡ a.config = started.10 in
    elim (Option-cases b.auth_data) [
      | inl e ↦ absurd (started.8 e)
      | inr (d, e) ↦ (
        _,
        d,
        e,
        serve_lem loads generates b d e (rw same key.3) (rw same k),
        refl,
        rw same refl,
        rw same refl,
        refl,
        refl,
        rw same refl,
        rw e refl,
      )
    ]
