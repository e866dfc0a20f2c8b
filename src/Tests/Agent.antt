-- ===== src/Tests/Agent.antt =====
-- agent/pkg/agent/agent.go: an agent that starts and pings.
use mini_shellhub.Prelude.{
  ℕ, ◌+◌, ◌<◌, ◌≤◌, Text, [], ◌≡◌, ◌≢◌, refl, none, some, ok, true, false, Bool, codes,
}
use mini_shellhub.Agent.Config.{Config, pos, NewAgent, host_mode}
use mini_shellhub.Agent.Startup.{Agent, Outside, AuthResponse, ServerInfo, initialize}
use mini_shellhub.Agent.Startup.Laws.{initialize-ok}
use mini_shellhub.Agent.Ping.{Ping, tick, continues, ping_interval, ping_step}
use mini_shellhub.Agent.Ping.Laws.{tick_bounds}
use mini_shellhub.Prelude.{text_eq, arith, ◌*◌, ◌^◌, ◌==◌, if◌then◌else◌}
use mini_shellhub.Agent.Config.{new_agent_with_config}
use mini_shellhub.Agent.Server.{Server, close_session}
use mini_shellhub.Agent.Server.Setup.{of_file, no_key}
use mini_shellhub.Agent.Serving.{Serving, serve, ssh_close_handler, initialized_serves}

abbrev pub config : Config
config = record {
  server_address = codes "http://hub";
  private_key = codes "/key";
  tenant_id = codes "acme";
  keep_alive_interval = 30;
  preferred_hostname = [];
  preferred_identity = [];
  single_user_password = [];
  simple_user_password = [];
  max_retry_connection_timeout = pos 60;
}

abbrev accepts : Text → Bool
accepts uri = true

abbrev made : NewAgent
made = record { config = config; mode = host_mode }

abbrev pub granted : AuthResponse
granted = record { name = codes "door"; namespace = codes "acme"; token = codes "t" }

abbrev pub server : ServerInfo
server = record { version = codes "v0.9.3"; ssh_endpoint = codes "hub:22" }

abbrev pub outside : Outside
outside = record {
  new_client = λ address. true;
  key_exists = λ path. true;
  generate_key = λ path. false;
  read_key = λ path. some (codes "PEM");
  get_info = some server;
  auth_device = λ request. some granted;
  agent_version = codes "v1";
  agent_platform = codes "linux";
  goos = codes "linux";
  goarch = codes "amd64";
}

abbrev offline : Outside
offline = record outside { get_info = none; auth_device = λ request. none }

abbrev pub new : Agent
new = record {
  config = config;
  has_client = false;
  pub_key = none;
  identity = none;
  info = none;
  auth_data = none;
  server_info = none;
  device_name = [];
  closed = true;
}

abbrev pub ready : Agent
ready = (initialize outside new).0

starts : initialize outside new ≡ (ready, ok tt)
unfolding initialize text_eq
starts = refl

-- The least number that may be drawn.
abbrev pub least : ℕ → ℕ
least bound = 0

abbrev running : Ping
running = record { agent = ready; ticker = some 600 }

agent_is_open : running.agent.closed ≡ false
unfolding initialize text_eq
agent_is_open = refl

ticks :
    ping_step 0 (tick outside least) running
    ≡ ((ping_step 0 (tick outside least) running).0, continues)
unfolding ping_step initialize text_eq
ticks = refl

tick_bounds_example :
    (t : ℕ) × (n : ℕ) × ((ping_step 0 (tick outside least) running).0.ticker
      ≡ some (ping_interval 0 + t))
    × (running.agent.config.max_retry_connection_timeout ≡ pos n)
    × (10 ≤ t)
    × (t < n)
tick_bounds_example =
    tick_bounds 0 outside least running (ping_step 0 (tick outside least) running).0 (λ k h. h)
      agent_is_open ticks

-- An agent with the least timeout that the configuration's validation lets through.
abbrev hasty : Ping
hasty = record {
  agent = record new {
    config = record config { max_retry_connection_timeout = pos 10 };
    closed = false;
  };
  ticker = some 600;
}

running_identified : (running.agent.identity ≢ none) × (running.agent.identity ≢ some [])
running_identified =
    ((initialize-ok outside new ready starts).1, (initialize-ok outside new ready starts).2)

config_is_valid : new_agent_with_config accepts new.config (some host_mode) ≡ ok made
unfolding new_agent_with_config text_eq
config_is_valid = refl

abbrev no_sessions : Server
no_sessions = record { sessions = []; cmds = []; closed = []; killed = [] }

abbrev loads : Text → Bool
loads file = true

initialized_serves_example :
    (s : Serving) × (d : AuthResponse) × (ready.auth_data ≡ some d)
    × (serve loads false ready ≡ ok s)
    × (s.device_name ≡ d.name)
    × (s.authenticator.single_user_password ≡ new.config.single_user_password)
    × (s.setup.host_key
        ≡ (if loads new.config.private_key then of_file new.config.private_key else no_key))
    × (s.setup.forwards_local ≡ true)
    × (s.setup.forwards_reverse ≡ false)
    × (s.setup.interval
        ≡ (if new.config.keep_alive_interval == 0 then 30 else new.config.keep_alive_interval)
          * 10 ^ 9)
    × (ssh_close_handler ready (codes "id") no_sessions
        ≡ (close_session (codes "id") no_sessions, ok d.namespace))
initialized_serves_example =
    initialized_serves accepts (some host_mode) made outside new ready loads false (codes "id")
      no_sessions config_is_valid starts (omega arith)
