-- ===== src/Agent/Server/Keepalive.antt =====
-- agent/pkg/agent/server/server.go, startKeepAliveLoop: the requests that the loop sends, and what the
-- server's loop over global requests (ssh/server/channels/session.go) makes of them.
use mini_shellhub.Prelude.{
  List, [], ◌∷◌, ◌++◌, map, ◌≡◌, refl, ap, ◌∙◌, append-nil, Bool, true, false, codes, All, arith,
  has_prefix, if◌then◌else◌,
}
use mini_shellhub.Channels.Requests.{Request, Incoming, Bridge, global_loop}
use mini_shellhub.Channels.Requests.Laws.{
  was_sent, renamed, read_globals, keepalives, refusals, global_loop_lem,
}

-- What the select statement receives: a tick, or that the context is done. The library's context
-- of a session is that of its connection, so this is the end of the connection.
pub data Wake : Type 0 where
  tick done : Wake

abbrev pub keepalive : Request
keepalive = record { kind = codes "keepalive"; want_reply = false; payload = [] }

-- `has_conn` is whether the session's context has a connection; that sending fails is only logged.
unfoldable pub start_keep_alive_loop : Bool → List Wake → List Request
start_keep_alive_loop has_conn [] = []
start_keep_alive_loop has_conn (done ∷ wakes) = []
start_keep_alive_loop has_conn (tick ∷ wakes) =
    let rest = start_keep_alive_loop has_conn wakes in if has_conn then keepalive ∷ rest else rest

-- The ticks before the connection ends, by the request that the client gets for each.
abbrev pub due : List Wake → List Request
due [] = []
due (done ∷ wakes) = []
due (tick ∷ wakes) = renamed keepalive ∷ due wakes

abbrev pub request_of : Incoming → Request
request_of i = i.request

-- Whether the server could pass a request on to the client.
abbrev pub IsSent : Incoming → Type 0
IsSent i = was_sent i.outcome ≡ true

read_globals-All : (is : List Incoming) → All IsSent is → read_globals is ≡ map request_of is
read_globals-All [] s = refl
read_globals-All (i ∷ is) s = ground (arith, read_globals-All is s.1)

keepalives-loop : (wakes : List Wake) → keepalives (start_keep_alive_loop true wakes) ≡ due wakes
unfolding start_keep_alive_loop has_prefix
keepalives-loop [] = refl
keepalives-loop (done ∷ wakes) = refl
keepalives-loop (tick ∷ wakes) = ap (λ rs. renamed keepalive ∷ rs) (keepalives-loop wakes)

refusals-loop : (wakes : List Wake) → refusals (start_keep_alive_loop true wakes) ≡ []
unfolding start_keep_alive_loop has_prefix
refusals-loop [] = refl
refusals-loop (done ∷ wakes) = refl
refusals-loop (tick ∷ wakes) = refusals-loop wakes

-- Where the server can pass on every request that the agent's keepalive loop sends, the client gets exactly
-- one keepalive under today's name for each tick before the agent's connection ends, and the agent gets no
-- refusal.
pub keepalives_reach_client :
    (b : Bridge) (wakes : List Wake) (is : List Incoming)
    → map request_of is ≡ start_keep_alive_loop true wakes
    → All IsSent is
    → ((global_loop b is).to_client ≡ b.to_client ++ due wakes)
      × ((global_loop b is).global_replies ≡ b.global_replies)
keepalives_reach_client b wakes is e s =
    let read = read_globals-All is s ∙ e in
    let (sent, refused) = global_loop_lem b is in
    (
      sent ∙ ap (λ rs. b.to_client ++ rs) (ap keepalives read ∙ keepalives-loop wakes),
      refused
          ∙ (ap (λ rs. b.global_replies ++ rs) (ap refusals read ∙ refusals-loop wakes)
              ∙ append-nil b.global_replies),
    )
