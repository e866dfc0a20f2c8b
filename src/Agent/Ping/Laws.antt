-- ===== src/Agent/Ping/Laws.antt =====
-- agent/pkg/agent/agent.go, ping: the pause between two authorizations, when the loop panics, and the
-- device's name.
use mini_shellhub.Prelude.{
  ℕ, ◌+◌, ◌-◌, ◌≤◌, ◌<◌, Text, List, [], ◌∷◌, ◌≡◌, ◌≢◌, ◌⊎◌, inl, inr, refl, false, Option, none,
  some, ok, panic, arith, All, sym, ◌∙◌, text_eq, Option-cases,
}
use mini_shellhub.Agent.Config.{ℤ, pos, negsuc}
use mini_shellhub.Agent.Startup.{
  Agent, Outside, AuthRequest, AuthResponse, authorize, lacks_identity, auth_request,
}
use mini_shellhub.Agent.Ping.{
  Ping, Event, cancelled, listening, tick, continues, panics, ping_interval, rand_timeout,
  ping_step, ping_run,
}

-- The configured timeout is at most ten seconds.
abbrev pub IsShort : ℤ → Type 0
IsShort (pos n) = n ≤ 10
IsShort (negsuc n) = Unit

authorize-config : (o : Outside) (a : Agent) → (authorize o a).0.config ≡ a.config
unfolding authorize
authorize-config o a = ground arith

rand_timeout-short : (max : ℤ) (draw : ℕ → ℕ) → IsShort max → rand_timeout max draw ≡ none
unfolding rand_timeout
rand_timeout-short (pos n) draw h = ground arith
rand_timeout-short (negsuc n) draw h = refl

-- With a timeout of at most ten seconds, which is what the smallest valid setting and NewAgent give,
-- every tick of an agent that is not closed panics, whatever the server answers.
pub short_timeout_panics :
    (interval : ℕ) (o : Outside) (draw : ℕ → ℕ) (p : Ping)
    → p.agent.closed ≡ false
    → IsShort p.agent.config.max_retry_connection_timeout
    → (ping_step interval (tick o draw) p).1 ≡ panics
unfolding ping_step
short_timeout_panics interval o draw p h s = ground (
  arith,
  authorize-config o p.agent,
  rand_timeout-short p.agent.config.max_retry_connection_timeout draw,
)

rand_timeout_bounds :
    (max : ℤ) (draw : ℕ → ℕ) (t : ℕ)
    → ((k : ℕ) → 0 < k → draw k < k)
    → rand_timeout max draw ≡ some t
    → (n : ℕ) × (max ≡ pos n) × (10 ≤ t) × (t < n)
unfolding rand_timeout
rand_timeout_bounds (pos n) draw t d h = (n, refl, ground arith, ground (arith, d (n - 10)))
rand_timeout_bounds (negsuc n) draw t d h = absurd (cc)

tick_ticker :
    (interval : ℕ) (o : Outside) (draw : ℕ → ℕ) (p p' : Ping)
    → p.agent.closed ≡ false
    → ping_step interval (tick o draw) p ≡ (p', continues)
    → (t : ℕ) × (rand_timeout p.agent.config.max_retry_connection_timeout draw ≡ some t)
      × (p'.ticker ≡ some (ping_interval interval + t))
unfolding ping_step
tick_ticker interval o draw p p' c h =
    elim (Option-cases (rand_timeout p.agent.config.max_retry_connection_timeout draw)) [
      | inl e ↦ absurd (ground (arith, authorize-config o p.agent))
      | inr (t, e) ↦ (t, e, ground (arith, authorize-config o p.agent))
    ]

-- A tick that continues sets the next pause to the interval and a number of seconds from 10 up to, and
-- without, the configured timeout, where the random draw below a bound is below it.
pub tick_bounds :
    (interval : ℕ) (o : Outside) (draw : ℕ → ℕ) (p p' : Ping)
    → ((k : ℕ) → 0 < k → draw k < k)
    → p.agent.closed ≡ false
    → ping_step interval (tick o draw) p ≡ (p', continues)
    → (t : ℕ) × (n : ℕ) × (p'.ticker ≡ some (ping_interval interval + t))
      × (p.agent.config.max_retry_connection_timeout ≡ pos n)
      × (10 ≤ t)
      × (t < n)
tick_bounds interval o draw p p' d c h =
    let (t, e, f) = tick_ticker interval o draw p p' c h in
    let (n, g, low, high) =
      rand_timeout_bounds p.agent.config.max_retry_connection_timeout draw t d e in
    (t, n, f, g, low, high)

-- At a tick, the server grants whatever authorization is requested.
abbrev pub Grants : Event → Type 0
Grants cancelled = Unit
Grants (listening started) = Unit
Grants (tick o draw) = (r : AuthRequest) → (d : AuthResponse) × (o.auth_device r ≡ some d)

-- The agent has an identity, as after Initialize.
abbrev pub IsIdentified : Agent → Type 0
IsIdentified a = (a.identity ≢ none) × (a.identity ≢ some [])

lacks_identity-identified :
    (id : Option Text) → id ≢ none → id ≢ some [] → lacks_identity id ≡ false
unfolding lacks_identity text_eq
lacks_identity-identified none h k = absurd (h refl)
lacks_identity-identified (some []) h k = absurd (k refl)
lacks_identity-identified (some (c ∷ mac)) h k = refl

authorize-granted :
    (o : Outside) (a : Agent)
    → IsIdentified a
    → ((r : AuthRequest) → (d : AuthResponse) × (o.auth_device r ≡ some d))
    → ((authorize o a).1 ≡ ok tt) ⊎ ((authorize o a).1 ≡ panic)
unfolding authorize
authorize-granted o a id g = elim (Option-cases a.pub_key) [
  | inl e ↦ inr (ground arith)
  | inr (key, e) ↦
      let (d, f) = g (auth_request a key) in
      inl (ground (arith, lacks_identity-identified a.identity id.0 id.1))
]

authorize_keeps :
    (o : Outside) (a : Agent)
    → ((authorize o a).0.device_name ≡ a.device_name) × ((authorize o a).0.identity ≡ a.identity)
unfolding authorize
authorize_keeps o a = ground arith

tick_keeps :
    (interval : ℕ) (o : Outside) (draw : ℕ → ℕ) (p : Ping)
    → ((authorize o p.agent).1 ≡ ok tt) ⊎ ((authorize o p.agent).1 ≡ panic)
    → ((ping_step interval (tick o draw) p).0.agent.device_name ≡ p.agent.device_name)
      × ((ping_step interval (tick o draw) p).0.agent.identity ≡ p.agent.identity)
unfolding ping_step
tick_keeps interval o draw p h = ground (arith, authorize_keeps o p.agent)

step_keeps :
    (interval : ℕ) (e : Event) (p : Ping)
    → IsIdentified p.agent
    → Grants e
    → ((ping_step interval e p).0.agent.device_name ≡ p.agent.device_name)
      × ((ping_step interval e p).0.agent.identity ≡ p.agent.identity)
unfolding ping_step
step_keeps interval cancelled p id g = ground arith
step_keeps interval (listening started) p id g = ground arith
step_keeps interval (tick o draw) p id g =
    tick_keeps interval o draw p (authorize-granted o p.agent id g)

-- While the server grants every authorization that an agent with an identity requests, the name of the
-- device on the SSH server stays as it was, whatever name the server answers with.
pub granted_name_stays :
    (interval : ℕ) (es : List Event) (p : Ping)
    → IsIdentified p.agent
    → All Grants es
    → (ping_run interval es p).0.agent.device_name ≡ p.agent.device_name
unfolding ping_run
granted_name_stays interval [] p id g = refl
granted_name_stays interval (e ∷ es) p id g =
    let (name, same) = step_keeps interval e p id g.0 in
    let rest =
      granted_name_stays interval es (ping_step interval e p).0
        ((λ h. id.0 (sym same ∙ h)), (λ h. id.1 (sym same ∙ h))) g.1 in
    ground (arith, name, rest)
