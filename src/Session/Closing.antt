-- ===== src/Session/Closing.antt =====
-- ssh/session/session_minimal.go, Finish, and agent/pkg/agent/pkg/tunnel/tunnel.go: the request that
-- ends a session, and the agent's routes.
use mini_shellhub.Prelude.{
  ℕ, ◌++◌, ◌≡◌, refl, false, some, ok, codes, text_eq, arith, All, get_elem?,
}
use mini_shellhub.Tunnel.{StreamConn}
use mini_shellhub.Session.Types.{Context, Session}
use mini_shellhub.Session.Channels.{CloseRequest, finish}
use mini_shellhub.Agent.Routes.{Route, routes}

-- Finish of a session with a connection to the agent sends one request, to the path of the session's
-- close handler, whose method is none that the agent registers a route for.
pub finish-unrouted :
    (c : Context) (p : ℕ) (s : Session) (conn : StreamConn)
    → get_elem? c.store p ≡ some s
    → s.agent.conn ≡ some conn
    → (r : CloseRequest) × (finish p c ≡ (c, ok (some r)))
      × (r.path ≡ codes "/ssh/close/" ++ s.uid)
      × All (λ (route : Route). text_eq r.method route.method ≡ false) routes
unfolding finish routes text_eq
finish-unrouted c p s conn h k = (
  record { method = codes "DELETE"; path = codes "/ssh/close/" ++ s.uid },
  ground (arith, h, k),
  refl,
  (refl, (refl, (refl, tt))),
)
