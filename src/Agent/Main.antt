-- ===== src/Agent/Main.antt =====
-- agent/main.go: the shipped agent, which dials the server, multiplexes the connection and hands every
-- stream that it accepts to its SSH server. The libraries' dialling and multiplexing are parameters.
pub mod Laws
use mini_shellhub.Prelude.{
  ℕ, Text, List, [], ◌∷◌, ◌++◌, Bool, true, false, not, ◌||◌, codes, text_eq, Option, none, some,
  if◌then◌else◌,
}
use mini_shellhub.Agent.Host.{Authenticator}
use mini_shellhub.Agent.Server.{no_feature}
use mini_shellhub.Agent.Server.Setup.{Config}

-- The values of the flags; their defaults are those of the environment.
pub record Flags : Type 0 where
  pub server_url : Text
  pub device_id : Text
  pub priv_key : Text
  pub single_user_pass : Text

-- The request for the WebSocket connection.
pub record DialRequest : Type 0 where
  pub url : Text
  pub device_header : Text

-- What lies outside: whether the dial and the multiplexer succeed, and the streams that are accepted
-- before Accept fails.
pub record Network : Type 0 where
  pub dials : DialRequest → Bool
  pub multiplexes : Bool
  pub streams : List ℕ

pub data Exit : Type 0 where
  missing_params connect_failed session_failed finished : Exit

-- What main has done when it ends: the SSH connections that were handled, in order.
pub record Ended : Type 0 where
  pub exit : Exit
  pub dialled : Option DialRequest
  pub handled : List ℕ

unfoldable pub authenticator : Flags → Authenticator
authenticator f = record { single_user_password = f.single_user_pass }

-- What the agent's own SSH server is made with.
unfoldable pub server_config : Flags → Config
server_config f = record {
  private_key = f.priv_key;
  keep_alive_interval = 0;
  features = no_feature;
}

unfoldable pub dial_request : Flags → DialRequest
dial_request f = record {
  url = f.server_url ++ codes "/ssh/connection";
  device_header = f.device_id;
}

-- The loop that accepts streams, until Accept fails.
unfoldable pub accept_loop : List ℕ → List ℕ → List ℕ
accept_loop handled [] = handled
accept_loop handled (stream ∷ streams) = accept_loop (handled ++ stream ∷ []) streams

unfoldable pub main : Flags → Network → Ended
unfolding accept_loop
main f net =
    if text_eq f.server_url [] || text_eq f.device_id []
    then record { exit = missing_params; dialled = none; handled = [] }
    else if not (net.dials (dial_request f))
    then record { exit = connect_failed; dialled = some (dial_request f); handled = [] }
    else if not net.multiplexes
    then record { exit = session_failed; dialled = some (dial_request f); handled = [] }
    else record {
      exit = finished;
      dialled = some (dial_request f);
      handled = accept_loop [] net.streams;
    }
