-- ===== src/Session/Seats.antt =====
-- ssh/session/session_minimal.go: seats are not given twice, so no channel meets a taken seat.
use mini_shellhub.Prelude.{
  ℕ, ◌+◌, ◌%◌, ◌^◌, ◌<◌, ◌≡◌, ◌≢◌, none, some, ok, err, arith, lookup, nat_key, lookup-insert,
  get_elem?, set, Option,
}
use mini_shellhub.Session.Types.{Session, Context, agent_client_not_established}
use mini_shellhub.Session.Channels.{
  new_seat, new_client_channel, new_agent_channel, set_client_channel, set_agent_channel,
}

-- Every seat that has a channel was given before, and there are seats left.
pub record Seated (s : Session) : Type 0 where
  pub client_seats : (k : ℕ) → lookup k s.client.channels ≢ none → k < s.next_seat
  pub agent_seats : (k : ℕ) → lookup k s.agent.channels ≢ none → k < s.next_seat
  pub left : s.next_seat + 1 < 2 ^ 64

-- The session after NewSeat.
abbrev pub seated : Session → Session
seated s = record s { next_seat = (s.next_seat + 1) % 2 ^ 64 }

pub new_seat_lem :
    (c : Context) (p : ℕ) (s : Session)
    → get_elem? c.store p ≡ some s
    → new_seat p c ≡ (record c { store = set c.store p (seated s) }, ok s.next_seat)
unfolding new_seat
new_seat_lem c p s h = ground (arith, h)

pub client_seat_free : (s : Session) → Seated s → lookup s.next_seat s.client.channels ≡ none
client_seat_free s v = ground (arith, v.client_seats s.next_seat)

pub agent_seat_free : (s : Session) → Seated s → lookup s.next_seat s.agent.channels ≡ none
agent_seat_free s v = ground (arith, v.agent_seats s.next_seat)

pub new_client_channel_lem :
    (c : Context) (p : ℕ) (s : Session) (seat channel : ℕ)
    → get_elem? c.store p ≡ some s
    → lookup seat s.client.channels ≡ none
    → new_client_channel (some channel) p seat c
      ≡ (record c { store = set c.store p (set_client_channel seat channel s) }, ok channel)
unfolding new_client_channel
new_client_channel_lem c p s seat channel h f = ground (arith, h, f)

pub new_agent_channel_lem :
    (opens : ℕ → Option ℕ) (c : Context) (p : ℕ) (s : Session) (seat client channel : ℕ)
    → get_elem? c.store p ≡ some s
    → lookup seat s.agent.channels ≡ none
    → s.agent.client ≡ some client
    → opens client ≡ some channel
    → new_agent_channel opens p seat c
      ≡ (record c { store = set c.store p (set_agent_channel seat channel s) }, ok channel)
unfolding new_agent_channel
new_agent_channel_lem opens c p s seat client channel h f a o = ground (arith, h, f, a, o)

pub new_agent_channel-no_client :
    (opens : ℕ → Option ℕ) (c : Context) (p : ℕ) (s : Session) (seat : ℕ)
    → get_elem? c.store p ≡ some s
    → lookup seat s.agent.channels ≡ none
    → s.agent.client ≡ none
    → new_agent_channel opens p seat c ≡ (c, err agent_client_not_established)
unfolding new_agent_channel
new_agent_channel-no_client opens c p s seat h f a = ground (arith, h, f, a)

-- The session once a seat was given and has both its channels.
abbrev pub occupied : Session → ℕ → ℕ → Session
occupied s client agent =
    set_agent_channel s.next_seat agent (set_client_channel s.next_seat client (seated s))

pub occupied-Seated :
    (s : Session) (client agent : ℕ)
    → Seated s
    → s.next_seat + 2 < 2 ^ 64
    → Seated (occupied s client agent)
unfolding set_agent_channel set_client_channel
occupied-Seated s client agent v room = record {
  client_seats =
      λ k h. ground (arith, lookup-insert s.next_seat k client s.client.channels, v.client_seats k);
  agent_seats =
      λ k h. ground (arith, lookup-insert s.next_seat k agent s.agent.channels, v.agent_seats k);
  left = omega arith;
}
