-- ===== src/Agent/Server/Setup.antt =====
-- agent/pkg/agent/server/server.go, NewServer: what the agent's SSH server is made of. Whether a key's
-- file loads and a key can be generated is the libraries'.
use mini_shellhub.Prelude.{
  ℕ, Text, List, [], ◌∷◌, Bool, false, not, codes, text_eq, text_eq_iff, Option, none, some, ◌≡◌,
  ◌≢◌, ◌↔◌, arith, if◌then◌else◌,
}
use mini_shellhub.Agent.Server.{local_port_forwarding, reverse_port_forwarding, keepalive_interval}

pub record Config : Type 0 where
  pub private_key : Text
  pub keep_alive_interval : ℕ
  pub features : ℕ

-- The host key: of a file, made in memory, or none, where the file's could not be loaded, which is only
-- logged.
pub data HostKey : Type 0 where
  of_file : Text → HostKey
  in_memory no_key : HostKey

pub record Setup : Type 0 where
  pub host_key : HostKey
  -- The keepalive's interval in nanoseconds.
  pub interval : ℕ
  pub forwards_local : Bool
  pub forwards_reverse : Bool
  pub channel_types : List Text
  pub subsystems : List Text

host_key_of : (Text → Bool) → Bool → Text → Option HostKey
host_key_of loads generates file =
    if not (text_eq file [])
    then some (if loads file then of_file file else no_key)
    else if generates
    then some in_memory
    else none

setup_with : Config → Option HostKey → Option Setup
setup_with c none = none
setup_with c (some key) = some (record {
  host_key = key;
  interval = keepalive_interval c.keep_alive_interval;
  forwards_local = local_port_forwarding c.features;
  forwards_reverse = reverse_port_forwarding c.features;
  channel_types = codes "session" ∷ codes "direct-tcpip" ∷ [];
  subsystems = codes "sftp" ∷ [];
})

-- None is `log.Fatal`, which ends the process.
unfoldable pub new_server : (Text → Bool) → Bool → Config → Option Setup
unfolding host_key_of setup_with
new_server loads generates c = setup_with c (host_key_of loads generates c.private_key)

-- A server that is made has a host key of its own, unless it was given a file that does not load.
pub new_server-keyless_iff :
    (loads : Text → Bool) (generates : Bool) (c : Config) (s : Setup)
    → new_server loads generates c ≡ some s
    → (s.host_key ≡ no_key) ↔ ((c.private_key ≢ []) × (loads c.private_key ≡ false))
unfolding new_server
new_server-keyless_iff loads generates c s h = ground (arith, text_eq_iff c.private_key [])
