-- ===== src/Channels/Requests/Laws.antt =====
-- ssh/server/channels/session.go: what the three loops pass on and answer, over any requests.
use mini_shellhub.Prelude.{
  List, [], ◌∷◌, ◌++◌, ◌≡◌, refl, sym, not, Bool, true, false, ◌&&◌, ◌||◌, arith, has_prefix,
  if◌then◌else◌, map, append-nil, append_assoc,
}
use mini_shellhub.Channels.Requests.{
  Request, Sent, sent, send_failed, Incoming, Bridge, starts_pipe, on_client_request,
  on_agent_request, on_global_request, client_loop, agent_loop, global_loop,
  keep_alive_request_type_prefix, keep_alive_request_type,
}

-- The answers that are due: the other side's, for each request that wants one and that was sent.
abbrev pub reply_due : Incoming → List Bool
reply_due i = elim i.outcome [
  | send_failed ↦ []
  | sent ok ↦ if i.request.want_reply then ok ∷ [] else []
]

abbrev pub replies_due : List Incoming → List Bool
replies_due [] = []
replies_due (i ∷ is) = reply_due i ++ replies_due is

-- A request that was sent and starts the pipe.
abbrev pub starts : Incoming → Bool
starts i = elim i.outcome [ send_failed ↦ false | sent ok ↦ starts_pipe i.request.kind ]

abbrev pub some_starts : List Incoming → Bool
some_starts [] = false
some_starts (i ∷ is) = starts i || some_starts is

pub on_client_request_lem :
    (b : Bridge) (i : Incoming)
    → ((on_client_request b i).to_agent ≡ b.to_agent ++ i.request ∷ [])
      × ((on_client_request b i).client_replies ≡ b.client_replies ++ reply_due i)
      × ((on_client_request b i).pipe_started ≡ (b.pipe_started || starts i))
      × ((on_client_request b i).to_client ≡ b.to_client)
unfolding on_client_request
on_client_request_lem b i = ground (arith, append-nil b.client_replies)

||-assoc : (a b c : Bool) → ((a || b) || c) ≡ (a || (b || c))
||-assoc a b c = ground arith

||-false : (a : Bool) → (a || false) ≡ a
||-false a = ground arith

-- Whatever the client requests, every request is handed to the agent's channel, unchanged and in
-- order, the client is given exactly the agent's answers to the requests that want one and could be
-- sent, the pipe has started exactly if it had before or one of the sent requests starts it, and
-- nothing is handed to the client's channel.
pub client_loop_lem :
    (b : Bridge) (is : List Incoming)
    → ((client_loop b is).to_agent ≡ b.to_agent ++ map (λ i. i.request) is)
      × ((client_loop b is).client_replies ≡ b.client_replies ++ replies_due is)
      × ((client_loop b is).pipe_started ≡ (b.pipe_started || some_starts is))
      × ((client_loop b is).to_client ≡ b.to_client)
unfolding client_loop
client_loop_lem b [] = (
  sym (append-nil b.to_agent),
  sym (append-nil b.client_replies),
  sym (||-false b.pipe_started),
  refl,
)
client_loop_lem b (i ∷ is) = ground (
  arith,
  on_client_request_lem b i,
  client_loop_lem (on_client_request b i) is,
  append_assoc b.to_agent (i.request ∷ []) (map (λ (j : Incoming). j.request) is),
  append_assoc b.client_replies (reply_due i) (replies_due is),
  ||-assoc b.pipe_started (starts i) (some_starts is),
)

pub on_agent_request_lem :
    (b : Bridge) (i : Incoming)
    → ((on_agent_request b i).to_client ≡ b.to_client ++ i.request ∷ [])
      × ((on_agent_request b i).agent_replies ≡ b.agent_replies ++ reply_due i)
      × ((on_agent_request b i).pipe_started ≡ b.pipe_started)
      × ((on_agent_request b i).to_agent ≡ b.to_agent)
unfolding on_agent_request
on_agent_request_lem b i = ground (arith, append-nil b.agent_replies)

-- Whatever the agent requests on the channel, exit statuses included, every request is handed to
-- the client's channel, unchanged and in order, the agent is given exactly the client's answers to
-- the requests that want one and could be sent, and nothing is handed to the agent's channel or
-- starts the pipe.
pub agent_loop_lem :
    (b : Bridge) (is : List Incoming)
    → ((agent_loop b is).to_client ≡ b.to_client ++ map (λ i. i.request) is)
      × ((agent_loop b is).agent_replies ≡ b.agent_replies ++ replies_due is)
      × ((agent_loop b is).pipe_started ≡ b.pipe_started)
      × ((agent_loop b is).to_agent ≡ b.to_agent)
unfolding agent_loop
agent_loop_lem b [] = (sym (append-nil b.to_client), sym (append-nil b.agent_replies), refl, refl)
agent_loop_lem b (i ∷ is) = ground (
  arith,
  on_agent_request_lem b i,
  agent_loop_lem (on_agent_request b i) is,
  append_assoc b.to_client (i.request ∷ []) (map (λ (j : Incoming). j.request) is),
  append_assoc b.agent_replies (reply_due i) (replies_due is),
)

-- A keepalive of any age, and its form for the client.
abbrev pub is_keepalive : Request → Bool
is_keepalive r = has_prefix r.kind keep_alive_request_type_prefix

abbrev pub renamed : Request → Request
renamed r = record r { kind = keep_alive_request_type }

-- The requests that the loop over global requests reads: up to a keepalive that cannot be sent.
abbrev pub was_sent : Sent → Bool
was_sent (sent ok) = true
was_sent send_failed = false

abbrev pub read_globals : List Incoming → List Request
read_globals [] = []
read_globals (i ∷ is) =
    i.request ∷ (if is_keepalive i.request && not (was_sent i.outcome) then [] else read_globals is)

abbrev pub keepalives : List Request → List Request
keepalives [] = []
keepalives (r ∷ rs) = if is_keepalive r then renamed r ∷ keepalives rs else keepalives rs

abbrev pub refusals : List Request → List Bool
refusals [] = []
refusals (r ∷ rs) =
    if is_keepalive r
    then refusals rs
    else if r.want_reply
    then false ∷ refusals rs
    else refusals rs

on_global_request_lem :
    (b : Bridge) (i : Incoming)
    → ((on_global_request b i).0.to_client
        ≡ b.to_client ++ (if is_keepalive i.request then renamed i.request ∷ [] else []))
      × ((on_global_request b i).0.global_replies
          ≡ b.global_replies
            ++ (if is_keepalive i.request
                then []
                else if i.request.want_reply
                then false ∷ []
                else []))
      × ((on_global_request b i).1 ≡ not (is_keepalive i.request && not (was_sent i.outcome)))
unfolding on_global_request
on_global_request_lem b i = ground (arith, append-nil b.to_client, append-nil b.global_replies)

-- Of the global requests that are read, up to a keepalive that cannot be sent, the client's channel
-- is handed the keepalives, under the one name of today and otherwise unchanged, and the agent is
-- refused each other request that wants an answer.
pub global_loop_lem :
    (b : Bridge) (is : List Incoming)
    → ((global_loop b is).to_client ≡ b.to_client ++ keepalives (read_globals is))
      × ((global_loop b is).global_replies ≡ b.global_replies ++ refusals (read_globals is))
unfolding global_loop
global_loop_lem b [] = (sym (append-nil b.to_client), sym (append-nil b.global_replies))
global_loop_lem b (i ∷ is) = ground (
  arith,
  on_global_request_lem b i,
  global_loop_lem (on_global_request b i).0 is,
  append_assoc b.to_client (renamed i.request ∷ []) (keepalives (read_globals is)),
  append_assoc b.global_replies (false ∷ []) (refusals (read_globals is)),
  append-nil b.to_client,
  append-nil b.global_replies,
)
