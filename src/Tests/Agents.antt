-- ===== src/Tests/Agents.antt =====
-- The agent's keepalives on their way to the client, and the agents that a client forwards.
use mini_shellhub.Prelude.{[], ◌∷◌, ◌++◌, map, ◌≡◌, ◌≢◌, ◌⊎◌, refl, true, false, none, some, List}
use mini_shellhub.Channels.Requests.{Incoming, Bridge, sent, global_loop}
use mini_shellhub.Agent.Server.Keepalive.{
  Wake, tick, done, keepalive, start_keep_alive_loop, due, request_of, keepalives_reach_client,
}
use mini_shellhub.Channels.AgentForwarding.{Offer, start, forward_loop, offers_end}
use mini_shellhub.Channels.AgentForwarding.Laws.{forwarding_lem}

abbrev bridge : Bridge
bridge = record {
  pipe_started = false;
  session_type = [];
  agent_requested = false;
  forwarders = 0;
  to_agent = [];
  to_client = [];
  client_replies = [];
  agent_replies = [];
  global_replies = [];
  rejects = [];
}

abbrev wakes : List Wake
wakes = tick ∷ tick ∷ done ∷ []

abbrev incoming : Incoming
incoming = record { request = keepalive; unmarshals = true; outcome = sent false }

two_sent : map request_of (incoming ∷ incoming ∷ []) ≡ start_keep_alive_loop true wakes
unfolding start_keep_alive_loop
two_sent = refl

keepalives_reach_client_example :
    ((global_loop bridge (incoming ∷ incoming ∷ [])).to_client ≡ bridge.to_client ++ due wakes)
    × ((global_loop bridge (incoming ∷ incoming ∷ [])).global_replies ≡ bridge.global_replies)
keepalives_reach_client_example =
    keepalives_reach_client bridge wakes (incoming ∷ incoming ∷ []) two_sent (refl, (refl, tt))

-- The second of the client's channels is not opened.
abbrev offers : List Offer
offers =
    record { accepted = some 1; opened = some 2 } ∷ record { accepted = some 3; opened = none } ∷ []

forwarding_lem_example :
    ((forward_loop offers start).hosed ≡ (1, 2) ∷ [])
    × ((offers_end (forward_loop offers start)).closed ≡ 3 ∷ 2 ∷ 1 ∷ [])
    × (((forward_loop offers start).rejected ≢ none)
        ⊎ ((forward_loop offers start).closed ≡ [])
          × ((forward_loop offers start).deferred ≡ 3 ∷ 2 ∷ 1 ∷ []))
forwarding_lem_example = forwarding_lem offers
