-- ===== src/Agent/Listening/Laws.antt =====
-- agent/pkg/agent/agent.go: when ping sends requests, and when Listen returns.
use mini_shellhub.Prelude.{
  ℕ, ◌≡◌, ◌≢◌, ◌↔◌, ◌⊎◌, inl, inr, refl, Bool, true, false, Option, none, some, arith, Option-cases,
}
use mini_shellhub.Agent.Startup.{Agent, Outside}
use mini_shellhub.Agent.Ping.{
  Ping, Event, listening, tick, Turn, continues, panics, default_interval, receive,
}
use mini_shellhub.Agent.Ping
use mini_shellhub.Agent.Listening.{
  Loop, serves, withdraws, Pinger, starts, waits, turns, selects, gone, crashed, Listening, begin,
  sending, after_send, receives, Step, makes_channel, finds_closed, finds_open, reads_nil,
  fails_to_connect, connects, sends_on_nil, sends_first, sends, stops_serving, pinger_finds_closed,
  pinger_finds_open, ticks, pinger_cancelled, closes, parent_cancels, listen_returns, Run, here,
  next,
}

-- A listener is open and ping has been told.
abbrev pub connected : Loop → Bool
connected serves = true
connected withdraws = true
connected loop = false

abbrev pub has_ticker : Option ℕ → Bool
has_ticker none = false
has_ticker (some period) = true

connected-cases : (loop : Loop) → connected loop ≡ true → (loop ≡ serves) ⊎ (loop ≡ withdraws)
connected-cases loop h = ground arith

-- The ticker runs exactly while the agent is connected, unless ping is over.
abbrev pub Agrees : Pinger → Bool → Bool → Type 0
Agrees starts c t = (c ≡ false) × (t ≡ false)
Agrees waits c t = (c ≡ false) × (t ≡ false)
Agrees turns c t = c ≡ t
Agrees selects c t = c ≡ t
Agrees gone c t = Unit
Agrees crashed c t = Unit

abbrev pub Inv : Listening → Type 0
Inv l = Agrees l.pinger (connected l.loop) (has_ticker l.ping.ticker)

-- Another place of the loop, connected as before.
Inv-moves :
    (l : Listening) (loop : Loop)
    → connected loop ≡ connected l.loop
    → Inv l
    → Inv (record l { loop = loop })
Inv-moves l loop e v = rw e v

ticker-cases : (t : Option ℕ) → t ≢ none → has_ticker t ≡ true
ticker-cases none h = absurd (h refl)
ticker-cases (some n) h = refl

receive-listening :
    (started : Bool) (p : Ping)
    → ((receive default_interval (listening started) p).1 ≡ panics)
      ⊎ ((receive default_interval (listening started) p).1 ≡ continues)
        × (has_ticker (receive default_interval (listening started) p).0.ticker ≡ started)
unfolding receive
receive-listening started p = elim (Option-cases p.agent.auth_data) [
  | inl e ↦ inl (ground arith)
  | inr (d, e) ↦ inr (ground arith)
]

receive-tick :
    (o : Outside) (draw : ℕ → ℕ) (p : Ping)
    → ((receive default_interval (tick o draw) p).1 ≡ panics)
      ⊎ ((receive default_interval (tick o draw) p).1 ≡ continues)
        × (has_ticker (receive default_interval (tick o draw) p).0.ticker ≡ true)
unfolding receive
receive-tick o draw p = ground arith

after_listening :
    (started : Bool) (l : Listening)
    → sending l.loop ≡ some started
    → Inv (record (receives (listening started) l) { loop = after_send started })
after_listening true l h = ground (arith, receive-listening true l.ping)
after_listening false l h = ground (arith, receive-listening false l.ping)

after_tick :
    (o : Outside) (draw : ℕ → ℕ) (l : Listening)
    → l.pinger ≡ selects
    → l.ping.ticker ≢ none
    → Inv l
    → Inv (receives (tick o draw) l)
after_tick o draw l h k v = ground (arith, receive-tick o draw l.ping, ticker-cases l.ping.ticker)

after_cancelled : (l : Listening) → Inv (receives Ping.cancelled l)
unfolding receive
after_cancelled l = ground (arith, Option-cases l.ping.agent.auth_data)

Step-Inv : {l m : Listening} → Step l m → Inv l → Inv m
Step-Inv {l} (makes_channel h) v = ground arith
Step-Inv {l} (finds_closed d h c e) v = ground arith
Step-Inv {l} (finds_open d i h c e f) v = ground arith
Step-Inv {l} (reads_nil h e) v = ground arith
Step-Inv {l} (fails_to_connect h) v = ground arith
Step-Inv {l} (connects h) v = ground arith
Step-Inv {l} (sends_on_nil h k) v = ground arith
Step-Inv {l} (sends_first true h k) v = refl
Step-Inv {l} (sends_first false h k) v = ground arith
Step-Inv {l} (sends started h k) v = after_listening started l h
Step-Inv {l} (stops_serving h) v = ground arith
Step-Inv {l} (pinger_finds_closed h c) v = tt
Step-Inv {l} (pinger_finds_open h c) v = ground arith
Step-Inv {l} (ticks o draw h k) v = after_tick o draw l h k v
Step-Inv {l} (pinger_cancelled h c) v = after_cancelled l
Step-Inv {l} closes v = v
Step-Inv {l} parent_cancels v = v
Step-Inv {l} (listen_returns h) v = v

Run-Inv : (a : Agent) {l : Listening} → Run (begin a) l → Inv l
unfolding begin
Run-Inv a here = (refl, refl)
Run-Inv a (next r c p s) = Step-Inv s (Run-Inv a r)

-- While ping waits for its next event, its ticker runs exactly if the agent has a connection: from when
-- it is announced to ping until its end is.
pub pings_iff_connected :
    (a : Agent) {l : Listening}
    → Run (begin a) l
    → l.pinger ≡ selects
    → (l.ping.ticker ≢ none) ↔ ((l.loop ≡ serves) ⊎ (l.loop ≡ withdraws))
pings_iff_connected a {l} r h = (
  λ k. connected-cases l.loop (ground (arith, Run-Inv a r, ticker-cases l.ping.ticker k)),
  λ k e. ground (arith, Run-Inv a r),
)
