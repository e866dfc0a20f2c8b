-- ===== src/Agent/Ping.antt =====
-- agent/pkg/agent/agent.go, ping: the loop that authorizes the agent again from time to time. Times
-- are in seconds; what rand.Intn draws below a bound comes with each tick.
pub mod Laws
use mini_shellhub.Prelude.{
  ℕ, ◌+◌, ◌-◌, Text, List, [], ◌∷◌, Bool, true, false, Option, none, some, Result, ok, err, panic,
  ltb, ◌==◌, if◌then◌else◌,
}
use mini_shellhub.Agent.Config.{Config, ℤ, pos, negsuc}
use mini_shellhub.Agent.Startup.{Agent, Outside, AuthResponse, StartError, authorize}

pub record Ping : Type 0 where
  pub agent : Agent
  -- The ticker's period, unless it is stopped.
  pub ticker : Option ℕ

-- What the select statement receives.
pub data Event : Type 0 where
  cancelled : Event
  listening : Bool → Event
  tick : Outside → (ℕ → ℕ) → Event

pub data Turn : Type 0 where
  continues returns panics : Turn

-- AgentPingDefaultInterval: ten minutes.
abbrev pub default_interval : ℕ
default_interval = 600

unfoldable pub ping_interval : ℕ → ℕ
ping_interval interval = if interval == 0 then default_interval else interval

-- rand.Intn(max - 10) + 10; Intn panics unless its bound is positive.
unfoldable pub rand_timeout : ℤ → (ℕ → ℕ) → Option ℕ
rand_timeout (pos max) draw = if ltb 10 max then some (draw (max - 10) + 10) else none
rand_timeout (negsuc max) draw = none

reset_after : ℕ → Option ℕ → Ping → Ping × Turn
reset_after interval none p = (p, panics)
reset_after interval (some t) p = (record p { ticker = some (interval + t) }, continues)

-- The branch `if err := a.authorize(); err != nil`.
name_after : Result StartError (Unit {0}) → AuthResponse → Agent → Agent
name_after (ok _) d a = a
name_after (err e) d a = record a { device_name = d.name }
name_after panic d a = a

-- Every branch reads a.authData, which panics where it is nil.
tick_authorized :
    ℕ → (ℕ → ℕ) → Option AuthResponse → Agent × Result StartError (Unit {0}) → Ping → Ping × Turn
unfolding name_after reset_after rand_timeout
tick_authorized interval draw auth (a, panic) p = (record p { agent = a }, panics)
tick_authorized interval draw none (a, r) p = (record p { agent = a }, panics)
tick_authorized interval draw (some d) (a, r) p =
    reset_after interval (rand_timeout a.config.max_retry_connection_timeout draw)
      (record p { agent = name_after r d a })

listening_turn : ℕ → Bool → Option AuthResponse → Ping → Ping × Turn
listening_turn interval started none p = (p, panics)
listening_turn interval started (some d) p =
    (record p { ticker = if started then some interval else none }, continues)

cancel_turn : Option AuthResponse → Ping → Ping × Turn
cancel_turn none p = (p, panics)
cancel_turn (some d) p = (p, returns)

unfoldable pub receive : ℕ → Event → Ping → Ping × Turn
unfolding tick_authorized listening_turn cancel_turn
receive interval cancelled p = cancel_turn p.agent.auth_data p
receive interval (listening started) p = listening_turn interval started p.agent.auth_data p
receive interval (tick o draw) p =
    let r = authorize o p.agent in tick_authorized interval draw r.0.auth_data r p

-- One turn of the loop.
unfoldable pub ping_step : ℕ → Event → Ping → Ping × Turn
unfolding receive ping_interval
ping_step interval e p =
    if p.agent.closed then (p, returns) else receive (ping_interval interval) e p

-- The turns up to the first that does not continue.
unfoldable pub ping_run : ℕ → List Event → Ping → Ping × Turn
ping_run interval [] p = (p, continues)
ping_run interval (e ∷ es) p =
    let (p', turn) = ping_step interval e p in
    let rest = ping_run interval es p' in elim turn [ continues ↦ rest | stops ↦ (p', stops) ]
