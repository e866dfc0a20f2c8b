-- ===== src/Agent/Listening.antt =====
-- agent/pkg/agent/agent.go, Listen and Close: the goroutine that connects and serves, the goroutine of
-- ping, and the channel `listening` between them. Each step is what one of them does between two points
-- where it can wait; the listener and the tunnel's HTTP server are the libraries', which accept, fail and
-- end as they like. Since Go 1.23 a ticker that is stopped or reset delivers no tick of before.
pub mod Laws
pub mod Hanging
pub mod Address
use mini_shellhub.Prelude.{
  ℕ, Text, ◌∷◌, ◌++◌, ◌≡◌, ◌≢◌, Bool, true, false, Option, none, some, ◌⊎◌, cut,
}
use mini_shellhub.Agent.Startup.{Agent, Outside, AuthResponse, ServerInfo}
use mini_shellhub.Agent.Ping.{
  Ping, Event, cancelled, listening, tick, Turn, continues, returns, panics, default_interval,
  receive,
}

-- The text before the first `:`, as strings.Split gives it.
before_colon : Text → Text
unfolding cut
before_colon s = elim (cut s b':') [ none ↦ s | some (host, port) ↦ host ]

-- The device's address for a client, {namespace}.{tenantName}@{sshEndpoint}, which Listen logs.
unfoldable pub sshid : AuthResponse → ServerInfo → Text
unfolding before_colon
sshid d i = d.namespace ++ b'.' ∷ d.name ++ b'@' ∷ before_colon i.ssh_endpoint

-- Where the goroutine of Listen is: it checks isClosed, opens a listener, sends true, serves and sends
-- false. A send on the channel before ping has made it blocks for good.
pub data Loop : Type 0 where
  checks opens announces serves withdraws blocked stopped panicked : Loop

-- Where ping is: before `make`, waiting for its first message, at the check of its loop, or in select.
pub data Pinger : Type 0 where
  starts waits turns selects gone crashed : Pinger

pub record Listening : Type 0 where
  pub ping : Ping
  pub loop : Loop
  pub pinger : Pinger
  -- `cancel` of Listen's own context was called; the context that Listen was given has ended.
  pub loop_cancelled : Bool
  pub parent_cancelled : Bool
  pub returned : Bool

unfoldable pub begin : Agent → Listening
begin a = record {
  ping = record { agent = a; ticker = none };
  loop = checks;
  pinger = starts;
  loop_cancelled = false;
  parent_cancelled = false;
  returned = false;
}

-- What the loop sends on the channel, and where it goes on.
abbrev pub sending : Loop → Option Bool
sending announces = some true
sending withdraws = some false
sending loop = none

abbrev pub after_send : Bool → Loop
after_send true = serves
after_send false = checks

abbrev pub after_turn : Turn → Pinger
after_turn continues = turns
after_turn returns = gone
after_turn panics = crashed

-- `a.closed.Store(true)`; that the tunnel's server ends is a step of its own.
abbrev pub close : Ping → Ping
close p = record p { agent = record (p.agent) { closed = true } }

-- What ping's select receives: an event, by the turn that it makes.
abbrev pub receives : Event → Listening → Listening
receives e l =
    let (ping, turn) = receive default_interval e l.ping in
    record l { ping = ping; pinger = after_turn turn }

pub data Step (l : Listening) : Listening → Type 0 where
  makes_channel : l.pinger ≡ starts → Step l (record l { pinger = waits })
  finds_closed :
      (d : AuthResponse)
      → l.loop ≡ checks
      → l.ping.agent.closed ≡ true
      → l.ping.agent.auth_data ≡ some d
      → Step l (record l { loop = stopped; loop_cancelled = true })
  finds_open :
      (d : AuthResponse) (i : ServerInfo)
      → l.loop ≡ checks
      → l.ping.agent.closed ≡ false
      → l.ping.agent.auth_data ≡ some d
      → l.ping.agent.server_info ≡ some i
      → Step l (record l { loop = opens })
  -- Both ways read a field of a.authData, and an agent that is open reads a.serverInfo.
  reads_nil :
      l.loop ≡ checks
      → (l.ping.agent.auth_data ≡ none)
        ⊎ (l.ping.agent.closed ≡ false) × (l.ping.agent.server_info ≡ none)
      → Step l (record l { loop = panicked })
  fails_to_connect : l.loop ≡ opens → Step l (record l { loop = checks })
  connects : l.loop ≡ opens → Step l (record l { loop = announces })
  sends_on_nil : l.loop ≡ announces → l.pinger ≡ starts → Step l (record l { loop = blocked })
  sends_first :
      (started : Bool)
      → sending l.loop ≡ some started
      → l.pinger ≡ waits
      → Step l (record l {
        loop = after_send started;
        ping = record (l.ping) { ticker = some default_interval };
        pinger = turns;
      })
  sends :
      (started : Bool)
      → sending l.loop ≡ some started
      → l.pinger ≡ selects
      → Step l (record (receives (listening started) l) { loop = after_send started })
  stops_serving : l.loop ≡ serves → Step l (record l { loop = withdraws })
  pinger_finds_closed :
      l.pinger ≡ turns → l.ping.agent.closed ≡ true → Step l (record l { pinger = gone })
  pinger_finds_open :
      l.pinger ≡ turns → l.ping.agent.closed ≡ false → Step l (record l { pinger = selects })
  ticks :
      (o : Outside) (draw : ℕ → ℕ)
      → l.pinger ≡ selects
      → l.ping.ticker ≢ none
      → Step l (receives (tick o draw) l)
  pinger_cancelled : l.pinger ≡ selects → l.parent_cancelled ≡ true → Step l (receives cancelled l)
  closes : Step l (record l { ping = close l.ping })
  parent_cancels : Step l (record l { parent_cancelled = true })
  -- `<-ctx.Done()`, on Listen's own context, which ends with the one it was given; then Close.
  listen_returns :
      (l.loop_cancelled ≡ true) ⊎ (l.parent_cancelled ≡ true)
      → Step l (record l { ping = close l.ping; returned = true })

-- A panic in either goroutine ends the process.
pub data Run (l : Listening) : Listening → Type 0 where
  here : Run l l
  next : {u w : Listening} → Run l u → u.pinger ≢ crashed → u.loop ≢ panicked → Step u w → Run l w
