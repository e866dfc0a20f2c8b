-- ===== src/Agent/Listening/Hanging.antt =====
-- agent/pkg/agent/agent.go: when Listen returns after Close, and when it never does.
use mini_shellhub.Prelude.{ℕ, ◌≡◌, ◌≢◌, ◌⊎◌, inl, inr, refl, true, false, none, some, arith}
use mini_shellhub.Agent.Startup.{Agent, Outside, AuthResponse, authorize}
use mini_shellhub.Agent.Ping.{Ping, tick, continues, default_interval, receive}
use mini_shellhub.Agent.Listening.{
  serves, withdraws, stopped, panicked, turns, selects, gone, Listening, begin, close, receives,
  Step, makes_channel, finds_closed, finds_open, reads_nil, fails_to_connect, connects,
  sends_on_nil, sends_first, sends, stops_serving, pinger_finds_closed, pinger_finds_open, ticks,
  pinger_cancelled, closes, parent_cancels, listen_returns, Run, here, next,
}

-- Listen's own context is cancelled by its loop only, when it stops; Listen returns after a context ended.
record Inv (l : Listening) : Type 0 where
  cancelled_stopped : (l.loop_cancelled ≡ false) ⊎ (l.loop ≡ stopped)
  returned_cancelled :
      (l.returned ≡ false) ⊎ (l.loop_cancelled ≡ true) ⊎ (l.parent_cancelled ≡ true)

Step-Inv : {l m : Listening} → Step l m → Inv l → Inv m
Step-Inv {l} (makes_channel h) v = ground arith
Step-Inv {l} (finds_closed d h c e) v = ground arith
Step-Inv {l} (finds_open d i h c e f) v = ground arith
Step-Inv {l} (reads_nil h e) v = ground arith
Step-Inv {l} (fails_to_connect h) v = ground arith
Step-Inv {l} (connects h) v = ground arith
Step-Inv {l} (sends_on_nil h k) v = ground arith
Step-Inv {l} (sends_first started h k) v = ground arith
Step-Inv {l} (sends started h k) v = ground arith
Step-Inv {l} (stops_serving h) v = ground arith
Step-Inv {l} (pinger_finds_closed h c) v = ground arith
Step-Inv {l} (pinger_finds_open h c) v = ground arith
Step-Inv {l} (ticks o draw h k) v = ground arith
Step-Inv {l} (pinger_cancelled h c) v = ground arith
Step-Inv {l} closes v = ground arith
Step-Inv {l} parent_cancels v = ground arith
Step-Inv {l} (listen_returns h) v = ground arith

Run-Inv : (a : Agent) {l : Listening} → Run (begin a) l → Inv l
unfolding begin
Run-Inv a here = record { cancelled_stopped = inl refl; returned_cancelled = inl refl }
Run-Inv a (next r c p s) = Step-Inv s (Run-Inv a r)

-- Ping is over while the loop still has to tell it that the connection has ended.
record IsStuck (l : Listening) : Type 0 where
  over : l.pinger ≡ gone
  untold : (l.loop ≡ serves) ⊎ (l.loop ≡ withdraws)
  not_cancelled : l.loop_cancelled ≡ false
  only_parent : (l.returned ≡ false) ⊎ (l.parent_cancelled ≡ true)

Step-IsStuck : {l m : Listening} → Step l m → IsStuck l → IsStuck m
Step-IsStuck {l} (makes_channel h) v = ground arith
Step-IsStuck {l} (finds_closed d h c e) v = ground arith
Step-IsStuck {l} (finds_open d i h c e f) v = ground arith
Step-IsStuck {l} (reads_nil h e) v = ground arith
Step-IsStuck {l} (fails_to_connect h) v = ground arith
Step-IsStuck {l} (connects h) v = ground arith
Step-IsStuck {l} (sends_on_nil h k) v = ground arith
Step-IsStuck {l} (sends_first started h k) v = ground arith
Step-IsStuck {l} (sends started h k) v = ground arith
Step-IsStuck {l} (stops_serving h) v = ground arith
Step-IsStuck {l} (pinger_finds_closed h c) v = ground arith
Step-IsStuck {l} (pinger_finds_open h c) v = ground arith
Step-IsStuck {l} (ticks o draw h k) v = ground arith
Step-IsStuck {l} (pinger_cancelled h c) v = ground arith
Step-IsStuck {l} closes v = ground arith
Step-IsStuck {l} parent_cancels v = ground arith
Step-IsStuck {l} (listen_returns h) v = ground arith

Run-IsStuck : {l m : Listening} → Run l m → IsStuck l → IsStuck m
Run-IsStuck here v = v
Run-IsStuck (next r c p s) v = Step-IsStuck s (Run-IsStuck r v)

first :
    {l u w : Listening}
    → (l.pinger ≡ selects) ⊎ (l.pinger ≡ turns)
    → l.loop ≢ panicked
    → Step l u
    → Run u w
    → Run l w
first p c s here = next here (λ h. ground arith) c s
first p c s (next r h k t) = next (first p c s r) h k t

-- Close is called, then the ticker fires, and ping finds the agent closed at its next turn.
abbrev pub ticked_closed : Outside → (ℕ → ℕ) → Listening → Listening
ticked_closed o draw l = record (receives (tick o draw) (record l { ping = close l.ping })) {
  pinger = gone;
}

authorize-closed : (o : Outside) (a : Agent) → (authorize o a).0.closed ≡ a.closed
unfolding authorize
authorize-closed o a = ground arith

receive-closed :
    (o : Outside) (draw : ℕ → ℕ) (p : Ping)
    → p.agent.closed ≡ true
    → (receive default_interval (tick o draw) p).0.agent.closed ≡ true
unfolding receive
receive-closed o draw p h = ground (arith, authorize-closed o p.agent)

ticked_closed-Run :
    (o : Outside) (draw : ℕ → ℕ) (l : Listening)
    → l.loop ≡ serves
    → l.pinger ≡ selects
    → l.ping.ticker ≢ none
    → (receive default_interval (tick o draw) (close l.ping)).1 ≡ continues
    → Run l (ticked_closed o draw l)
ticked_closed-Run o draw l s p t c =
    first (inl p) (λ h. ground arith) closes
      (first (inl p) (λ h. ground arith) (ticks o draw p t)
        (first (inr (ground arith)) (λ h. ground arith)
          (pinger_finds_closed (ground arith) (receive-closed o draw (close l.ping) refl)) here))

-- If Close is called while a connection is served, and ping's ticker fires before the end of the
-- connection is sent to it, without a panic, then ping can return; and whatever happens from there,
-- Listen returns only if the context that it was given has ended.
pub closed_tick_hangs :
    (a : Agent) (l : Listening) (o : Outside) (draw : ℕ → ℕ) {w : Listening}
    → Run (begin a) l
    → l.loop ≡ serves
    → l.pinger ≡ selects
    → l.ping.ticker ≢ none
    → (receive default_interval (tick o draw) (close l.ping)).1 ≡ continues
    → Run (ticked_closed o draw l) w
    → w.returned ≡ true
    → Run l (ticked_closed o draw l) × (w.parent_cancelled ≡ true)
closed_tick_hangs a l o draw {w} r s p t c q h = (
  ticked_closed-Run o draw l s p t c,
  ground (arith, Run-IsStuck q (ground (arith, Run-Inv a r))),
)

-- If Close is called while a connection is served and ping waits for its next event, and the end of the
-- connection reaches ping before a tick, then Listen returns without the end of its context.
pub close_returns :
    (l : Listening) (d : AuthResponse)
    → l.loop ≡ serves
    → l.pinger ≡ selects
    → l.ping.agent.auth_data ≡ some d
    → (w : Listening) × Run l w
      × (w.returned ≡ true)
      × (w.ping.agent.closed ≡ true)
      × (w.parent_cancelled ≡ l.parent_cancelled)
unfolding receive
close_returns l d s p e = (
  _,
  first (inl p) (λ h. ground arith) closes
      (first (inl p) (λ h. ground arith) (stops_serving s)
        (first (inl p) (λ h. ground arith) (sends false refl p)
          (first (inr (ground arith)) (λ h. ground arith)
            (finds_closed d refl (ground arith) (ground arith))
            (first (inr (ground arith)) (λ h. ground arith) (listen_returns (inl refl)) here)))),
  refl,
  refl,
  refl,
)
