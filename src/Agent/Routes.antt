-- ===== src/Agent/Routes.antt =====
-- agent/pkg/agent/pkg/tunnel/tunnel.go: the tunnel's handlers, and the routes that the agent's HTTP server registers. Which of
-- them a path matches is the router's; a route serves requests of its own method only.
use mini_shellhub.Prelude.{
  Text, List, [], ◌∷◌, codes, Option, none, some, Result, ok, panic, ◌≡◌, arith,
}

pub data Handler : Type 0 where
  ssh_handler ssh_close_handler http_proxy_handler : Handler

pub record Route : Type 0 where
  pub method : Text
  pub pattern : Text
  pub handler : Handler

unfoldable pub routes : List Route
routes =
    record { method = codes "GET"; pattern = codes "/ssh/:id"; handler = ssh_handler }
    ∷ record { method = codes "GET"; pattern = codes "/ssh/close/:id"; handler = ssh_close_handler }
    ∷ record {
      method = codes "CONNECT";
      pattern = codes "/http/proxy/:addr";
      handler = http_proxy_handler;
    }
    ∷ []

-- The three fields that the routes call; none is the default, which panics.
pub record Tunnel : Type 0 where
  pub on_ssh : Option Handler
  pub on_ssh_close : Option Handler
  pub on_http_proxy : Option Handler

unfoldable pub new_tunnel : Tunnel
new_tunnel = record { on_ssh = none; on_ssh_close = none; on_http_proxy = none }

unfoldable pub with_http_proxy_handler : Handler → Tunnel → Tunnel
with_http_proxy_handler handler t = record t { on_http_proxy = some handler }

unfoldable pub with_ssh_handler : Handler → Tunnel → Tunnel
with_ssh_handler handler t = record t { on_ssh = some handler }

unfoldable pub with_ssh_close_handler : Handler → Tunnel → Tunnel
with_ssh_close_handler handler t = record t { on_ssh_close = some handler }

-- The tunnel that Listen builds.
unfoldable pub listen_tunnel : Tunnel
unfolding new_tunnel with_http_proxy_handler with_ssh_handler with_ssh_close_handler
listen_tunnel =
    with_http_proxy_handler http_proxy_handler
      (with_ssh_close_handler ssh_close_handler (with_ssh_handler ssh_handler new_tunnel))

call : Option Handler → Result (Unit {0}) Handler
call none = panic
call (some handler) = ok handler

field : Handler → Tunnel → Option Handler
field ssh_handler t = t.on_ssh
field ssh_close_handler t = t.on_ssh_close
field http_proxy_handler t = t.on_http_proxy

-- A matched route calls the field that it names.
unfoldable pub serve : Tunnel → Route → Result (Unit {0}) Handler
unfolding call field
serve t r = call (field r.handler t)

-- The tunnel that Listen builds calls on every route the handler that the route names, and so never the
-- default that panics.
pub serve-listen_tunnel : (r : Route) → serve listen_tunnel r ≡ ok r.handler
unfolding serve listen_tunnel
serve-listen_tunnel r = ground arith
