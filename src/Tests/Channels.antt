-- ===== src/Tests/Channels.antt =====
-- ssh/server/channels: session channels that open, pass requests on and end.
use mini_shellhub.Prelude.{
  here, next, ℕ, ◌+◌, ◌<◌, ◌^◌, Text, List, [], ◌∷◌, ◌++◌, ◌||◌, ◌≡◌, refl, none, some, Option, ok,
  true, codes, map, arith, lookup, nat_key, get_elem?,
}
use mini_shellhub.Session.Types.{Session, State, state_finished}
use mini_shellhub.Session.Operations.{set_client, set_conn, fresh_session}
use mini_shellhub.Session.Seats.{Seated, occupied}
use mini_shellhub.Server.Logins.{Holds}
use mini_shellhub.Channels.Opening.{opened, open_session_channel}
use mini_shellhub.Channels.Opening.Laws.{opening-opens}
use mini_shellhub.Channels.Requests.{
  Request, Incoming, sent, send_failed, client_loop, exec_request_type, on_client_request,
  starts_pipe,
}
use mini_shellhub.Channels.Requests.Laws.{replies_due, some_starts, client_loop_lem}
use mini_shellhub.Channels.Shutdown.{
  Threads, Reach, IsDone, start, client_requests, client_returns, reads_request, signalling,
  awaiting, ended, returned, global_returns, agent_leaves, copy_ends, meets,
}
use mini_shellhub.Channels.Shutdown.Ending.{requests_of, done-some_starts, started-Ends}
use mini_shellhub.Tests.Fixtures.{bridged_session, context}
use mini_shellhub.Prelude.{text_eq}

abbrev linked : Session
linked = set_client (1, 2) bridged_session

linked-Seated : Seated linked
unfolding set_client set_conn fresh_session lookup
linked-Seated = record {
  client_seats = λ k h. absurd (h refl);
  agent_seats = λ k h. absurd (h refl);
  left = omega arith;
}

bridged-Seated : Seated bridged_session
unfolding set_conn fresh_session lookup
bridged-Seated = record {
  client_seats = λ k h. absurd (h refl);
  agent_seats = λ k h. absurd (h refl);
  left = omega arith;
}

held : (s : Session) (state : State) → Holds (context s state) 0 s state
held s state = record { snapped = refl; stored = refl }

abbrev opens : ℕ → Option ℕ
opens client = some 9

seats_left : linked.next_seat + 2 < 2 ^ 64
unfolding set_client set_conn fresh_session
seats_left = omega arith

opening-opens_example :
    let (c', result) = open_session_channel (some 8) opens (context linked state_finished) in
    (result ≡ ok (opened linked.next_seat 8 9))
    × (get_elem? c'.store 0 ≡ some (occupied linked 8 9))
    × (lookup linked.next_seat linked.client.channels ≡ none)
    × Seated (occupied linked 8 9)
unfolding set_client
opening-opens_example =
    opening-opens opens (context linked state_finished) 0 linked state_finished 8
      (held linked state_finished) linked-Seated 1 9 refl refl seats_left

abbrev request : Text → Request
request kind = record { kind = kind; want_reply = true; payload = [] }

abbrev exec : Incoming
exec = record { request = request exec_request_type; unmarshals = true; outcome = sent true }

abbrev env_lost : Incoming
env_lost = record { request = request (codes "env"); unmarshals = true; outcome = send_failed }

abbrev keepalive : Incoming
keepalive = record { request = request (codes "keepalive"); unmarshals = true; outcome = sent true }

abbrev requests : List Incoming
requests = env_lost ∷ keepalive ∷ exec ∷ []

client_loop_lem_example :
    ((client_loop start.bridge requests).to_agent
      ≡ start.bridge.to_agent ++ map (λ (i : Incoming). i.request) requests)
    × ((client_loop start.bridge requests).client_replies
        ≡ start.bridge.client_replies ++ replies_due requests)
    × ((client_loop start.bridge requests).pipe_started
        ≡ (start.bridge.pipe_started || some_starts requests))
    × ((client_loop start.bridge requests).to_client ≡ start.bridge.to_client)
client_loop_lem_example = client_loop_lem start.bridge requests

-- A command that the client runs, whose output ends before the loops return.
abbrev asked : Threads
asked = reads_request exec start

abbrev copied : Threads
copied = record asked { pipe_phase = signalling }

abbrev left : Threads
left = record copied { agent_phase = awaiting }

abbrev met : Threads
met = record left { pipe_phase = ended; agent_phase = returned }

abbrev finished : Threads
finished = record met { global_returned = true; client_returned = true }

asked-Reach : Reach start asked
unfolding start
asked-Reach = next here (client_requests exec refl)

finished-Reach : Reach start finished
unfolding start reads_request on_client_request text_eq starts_pipe
finished-Reach =
    next
      (next (next (next (next asked-Reach (copy_ends refl)) (agent_leaves refl)) (meets refl refl))
        global_returns)
      client_returns

finished-IsDone : IsDone finished
finished-IsDone = record { global = refl; client = refl; agent = refl }

done-some_starts_example : some_starts (requests_of finished-Reach) ≡ true
done-some_starts_example = done-some_starts finished-Reach finished-IsDone

asked_starts : some_starts (requests_of asked-Reach) ≡ true
unfolding asked-Reach starts_pipe text_eq
asked_starts = refl

started-Ends_example : (u : Threads) × Reach asked u × IsDone u
started-Ends_example = started-Ends asked-Reach asked_starts
