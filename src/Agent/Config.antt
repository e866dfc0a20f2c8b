-- ===== src/Agent/Config.antt =====
-- agent/pkg/agent/agent.go: Config, NewAgent and NewAgentWithConfig. An `int` is an integer; what
-- url.ParseRequestURI accepts is a parameter.
pub mod Loading
use mini_shellhub.Prelude.{
  ℕ, Text, [], ◌≡◌, ◌≢◌, ◌↔◌, Bool, true, not, Option, none, some, Result, ok, err, text_eq,
  text_eq_iff, if◌then◌else◌, arith,
}

-- `negsuc n` is -(n + 1).
pub data ℤ : Type 0 where
  pos : ℕ → ℤ
  negsuc : ℕ → ℤ

pub record Config : Type 0 where
  pub server_address : Text
  pub private_key : Text
  pub tenant_id : Text
  pub keep_alive_interval : ℕ
  pub preferred_hostname : Text
  pub preferred_identity : Text
  pub single_user_password : Text
  pub simple_user_password : Text
  pub max_retry_connection_timeout : ℤ

-- The modes of the agent; the source has one.
pub data Mode : Type 0 where
  host_mode : Mode

pub data ConfigError : Type 0 where
  empty_server_address invalid_server_address empty_tenant empty_private_key nil_mode : ConfigError

-- What NewAgentWithConfig sets of an agent.
pub record NewAgent : Type 0 where
  pub config : Config
  pub mode : Mode

with_mode : Config → Option Mode → Result ConfigError NewAgent
with_mode c none = err nil_mode
with_mode c (some m) = ok (record { config = c; mode = m })

unfoldable pub new_agent_with_config :
    (Text → Bool) → Config → Option Mode → Result ConfigError NewAgent
unfolding with_mode
new_agent_with_config parses_uri c mode =
    if text_eq c.server_address []
    then err empty_server_address
    else if not (parses_uri c.server_address)
    then err invalid_server_address
    else if text_eq c.tenant_id []
    then err empty_tenant
    else if text_eq c.private_key []
    then err empty_private_key
    else with_mode c mode

-- The configuration that NewAgent makes: all else has its zero value.
unfoldable pub minimal_config : Text → Text → Text → Config
minimal_config address tenant key = record {
  server_address = address;
  private_key = key;
  tenant_id = tenant;
  keep_alive_interval = 0;
  preferred_hostname = [];
  preferred_identity = [];
  single_user_password = [];
  simple_user_password = [];
  max_retry_connection_timeout = pos 0;
}

unfoldable pub new_agent :
    (Text → Bool) → Text → Text → Text → Option Mode → Result ConfigError NewAgent
unfolding new_agent_with_config minimal_config
new_agent parses_uri address tenant key mode =
    new_agent_with_config parses_uri (minimal_config address tenant key) mode

-- NewAgentWithConfig succeeds exactly on a configuration with a server address that is not empty and
-- parses, a tenant, a private key and a mode, and then keeps the configuration and the mode.
pub new_agent_with_config-ok_iff :
    (parses_uri : Text → Bool) (c : Config) (mode : Option Mode) (a : NewAgent)
    → (new_agent_with_config parses_uri c mode ≡ ok a) ↔ (
        (c.server_address ≢ [])
        × (parses_uri c.server_address ≡ true)
        × (c.tenant_id ≢ [])
        × (c.private_key ≢ [])
        × (mode ≡ some a.mode)
        × (c ≡ a.config))
unfolding new_agent_with_config
new_agent_with_config-ok_iff parses_uri c mode a = (
  λ h. ground (
    arith,
    text_eq_iff c.server_address [],
    text_eq_iff c.tenant_id [],
    text_eq_iff c.private_key [],
  ),
  λ h. ground (
    arith,
    text_eq_iff c.server_address [],
    text_eq_iff c.tenant_id [],
    text_eq_iff c.private_key [],
  ),
)
