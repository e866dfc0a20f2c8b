-- ===== src/Tests/Listening.antt =====
-- agent/pkg/agent/agent.go: an agent that connects, is closed, and hangs.
use mini_shellhub.Prelude.{◌≡◌, ◌≢◌, ◌↔◌, ◌⊎◌, inr, refl, true, false, none, some, text_eq}
use mini_shellhub.Agent.Startup.{initialize}
use mini_shellhub.Agent.Ping.{tick, continues, default_interval, receive}
use mini_shellhub.Agent.Listening.{
  serves, withdraws, selects, Listening, begin, close, makes_channel, finds_open, connects,
  sends_first, pinger_finds_open, parent_cancels, listen_returns, Run, here, next,
}
use mini_shellhub.Agent.Listening.Laws.{pings_iff_connected}
use mini_shellhub.Agent.Listening.Hanging.{ticked_closed, closed_tick_hangs}
use mini_shellhub.Tests.Agent.{ready, outside, least, granted, server}

-- The agent serves a connection, and ping waits for its next event.
abbrev serving : Listening
serving = record {
  ping = record { agent = ready; ticker = some default_interval };
  loop = serves;
  pinger = selects;
  loop_cancelled = false;
  parent_cancelled = false;
  returned = false;
}

serving-Run : Run (begin ready) serving
unfolding begin initialize text_eq
serving-Run =
    next
      (next
        (next
          (next (next here (λ h. cc) (λ h. cc) (makes_channel refl)) (λ h. cc) (λ h. cc)
            (finds_open granted server refl refl refl refl))
          (λ h. cc) (λ h. cc) (connects refl))
        (λ h. cc) (λ h. cc) (sends_first true refl refl))
      (λ h. cc) (λ h. cc) (pinger_finds_open refl refl)

pings_iff_connected_example :
    (serving.ping.ticker ≢ none) ↔ ((serving.loop ≡ serves) ⊎ (serving.loop ≡ withdraws))
pings_iff_connected_example = pings_iff_connected ready serving-Run refl

-- After the hang, the context that Listen was given ends.
abbrev given_up : Listening
given_up = record (ticked_closed outside least serving) {
  ping = close (ticked_closed outside least serving).ping;
  parent_cancelled = true;
  returned = true;
}

given_up-Run : Run (ticked_closed outside least serving) given_up
given_up-Run =
    next (next here (λ h. cc) (λ h. cc) parent_cancels) (λ h. cc) (λ h. cc)
      (listen_returns (inr refl))

tick_continues : (receive default_interval (tick outside least) (close serving.ping)).1 ≡ continues
unfolding receive initialize text_eq
tick_continues = refl

closed_tick_hangs_example :
    Run serving (ticked_closed outside least serving) × (given_up.parent_cancelled ≡ true)
closed_tick_hangs_example =
    closed_tick_hangs ready serving outside least serving-Run refl refl (λ h. cc) tick_continues
      given_up-Run refl
