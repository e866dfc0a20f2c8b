-- ===== src/Agent/Config/Loading.antt =====
-- agent/pkg/agent/agent.go, LoadConfigFromEnv: what the environment parser gives, if the tags `validate`
-- of Config let it through.
use mini_shellhub.Prelude.{
  Text, [], ◌≡◌, ◌↔◌, Bool, true, false, not, ◌&&◌, leb, Option, none, some, ok, text_eq,
  text_eq_iff, if◌then◌else◌, arith,
}
use mini_shellhub.Agent.Config.{
  ℤ, pos, negsuc, Config, Mode, new_agent_with_config, new_agent_with_config-ok_iff,
}

-- `min=10,max=120`.
in_range : ℤ → Bool
in_range (pos n) = leb 10 n && leb n 120
in_range (negsuc n) = false

-- `required`, of three fields, and the range of the fourth.
is_valid : Config → Bool
unfolding in_range
is_valid c =
    not (text_eq c.server_address [])
    && not (text_eq c.private_key [])
    && not (text_eq c.tenant_id [])
    && in_range c.max_retry_connection_timeout

validated : Config → Option Config
unfolding is_valid
validated c = if is_valid c then some c else none

-- The parsed configuration comes from outside; none is a variable that is missing or cannot be read.
unfoldable pub load_config_from_env : Option Config → Option Config
unfolding validated
load_config_from_env none = none
load_config_from_env (some c) = validated c

-- A configuration that was loaded makes an agent, with any mode, exactly if its address parses.
pub load_config_from_env-new_agent :
    (parses_uri : Text → Bool) (env : Option Config) (c : Config) (m : Mode)
    → load_config_from_env env ≡ some c
    → (new_agent_with_config parses_uri c (some m) ≡ ok (record { config = c; mode = m }))
      ↔ (parses_uri c.server_address ≡ true)
unfolding load_config_from_env
load_config_from_env-new_agent parses_uri none c m h = absurd (ground arith)
load_config_from_env-new_agent parses_uri (some d) c m h = ground (
  arith,
  new_agent_with_config-ok_iff parses_uri c (some m) (record { config = c; mode = m }),
  text_eq_iff c.server_address [],
  text_eq_iff c.tenant_id [],
  text_eq_iff c.private_key [],
)
