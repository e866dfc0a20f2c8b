-- ===== src/Process/Channels.antt =====
-- ssh/server/channels: a channel handler leaves a context that holds a session with one, and does not
-- panic there.
use mini_shellhub.Prelude.{
  ◌+◌, ◌%◌, ◌^◌, ℕ, Text, ◌≡◌, ◌≢◌, ◌∙◌, refl, sym, Option, some, panic, arith, get_elem?, set,
  get_elem?-set_self, Option-cases, Result-cases, inl, inr, lookup, nat_key, text_key,
}
use mini_shellhub.Session.Types.{
  Context, Session, State, state_created, state_evaluated, state_finished,
}
use mini_shellhub.Session.Operations.{obtain_session}
use mini_shellhub.Session.Channels.{
  new_client_channel, new_agent_channel, set_client_channel, set_agent_channel,
}
use mini_shellhub.Session.Seats.{seated, new_seat_lem}
use mini_shellhub.Server.{local_port_forwarding}
use mini_shellhub.Server.Logins.{Holds}
use mini_shellhub.Server.Holding.{HasSession}
use mini_shellhub.Channels.Opening.{open_client, open_session_channel, open_overlapping}
use mini_shellhub.Channels.Forwarding.{ChannelData, DialTcp, destination, direct_tcpip_handler}
use mini_shellhub.Channels.Forwarding.Crashing.{IsFinished}

-- The context has the same snapshot, and the session that was at `p`, whatever its channels.
abbrev Keeps : ℕ → Session → Context → Context → Type 0
Keeps p s c c' =
    (c'.snap ≡ c.snap)
    × (t : Session) × (get_elem? c'.store p ≡ some t)
    × (t.agent.client ≡ s.agent.client)

module _ (p : ℕ) (s : Session) (c : Context) (there : get_elem? c.store p ≡ some s) where
  client_channel-Keeps :
      (accepted : Option ℕ) (seat : ℕ) → Keeps p s c (new_client_channel accepted p seat c).0
  unfolding new_client_channel set_client_channel
  client_channel-Keeps accepted seat = elim (Option-cases (lookup seat s.client.channels)) [
    | inr (taken, e) ↦ (ground (arith, there), s, ground (arith, there), refl)
    | inl e ↦ elim (Option-cases accepted) [
      | inl a ↦ (ground (arith, there), s, ground (arith, there), refl)
      | inr (channel, a) ↦ (
        ground (arith, there),
        set_client_channel seat channel s,
        ground (arith, there, get_elem?-set_self c.store p (set_client_channel seat channel s) s),
        refl,
      )
    ]
  ]

  agent_channel-Keeps :
      (opens : ℕ → Option ℕ) (seat : ℕ) → Keeps p s c (new_agent_channel opens p seat c).0
  unfolding new_agent_channel set_agent_channel
  agent_channel-Keeps opens seat = elim (Option-cases (lookup seat s.agent.channels)) [
    | inr (taken, e) ↦ (ground (arith, there), s, ground (arith, there), refl)
    | inl e ↦ elim (Option-cases s.agent.client) [
      | inl a ↦ (ground (arith, there), s, ground (arith, there), refl)
      | inr (client, a) ↦ elim (Option-cases (opens client)) [
        | inl o ↦ (ground (arith, there), s, ground (arith, there), refl)
        | inr (channel, o) ↦ (
          ground (arith, there),
          set_agent_channel seat channel s,
          ground (arith, there, get_elem?-set_self c.store p (set_agent_channel seat channel s) s),
          refl,
        )
      ]
    ]
  ]

module _ (accepted : Option ℕ) (opens : ℕ → Option ℕ) (c : Context) (p : ℕ) (s : Session)
    (state : State) (v : Holds c p s state) where
  -- The context with the handler's own seat.
  abbrev c1 : Context
  c1 = record c { store = set c.store p (seated s) }

  there1 : get_elem? c1.store p ≡ some (seated s)
  there1 = get_elem?-set_self c.store p (seated s) s v.stored

  opening-Keeps : Keeps p s c (open_session_channel accepted opens c).0
  unfolding open_session_channel obtain_session
  opening-Keeps =
      let r = new_client_channel accepted p s.next_seat c1 in
      let (k, t, e, n) = client_channel-Keeps p (seated s) c1 there1 accepted s.next_seat in
      elim (Result-cases r.1) [
        | inr bad ↦ (
          ground (arith, v.snapped, new_seat_lem c p s v.stored, k),
          t,
          ground (arith, v.snapped, new_seat_lem c p s v.stored, e),
          n,
        )
        | inl (client, h) ↦
            let (k', t', e', n') = agent_channel-Keeps p t r.0 e opens s.next_seat in
            (
              ground (arith, v.snapped, new_seat_lem c p s v.stored, k, k'),
              t',
              ground (arith, v.snapped, new_seat_lem c p s v.stored, e'),
              n' ∙ n,
            )
      ]

open_client-Keeps :
    (accepted : Option ℕ) (opens : ℕ → Option ℕ) (c : Context) (p : ℕ) (s : Session) (seat : ℕ)
    → get_elem? c.store p ≡ some s
    → Keeps p s c (open_client accepted opens p seat c).0
unfolding open_client
open_client-Keeps accepted opens c p s seat there =
    let r = new_client_channel accepted p seat c in
    let (k, t, e, n) = client_channel-Keeps p s c there accepted seat in
    elim (Result-cases r.1) [
      | inr bad ↦ (ground (arith, k), t, ground (arith, e), n)
      | inl (client, h) ↦
          let (k', t', e', n') = agent_channel-Keeps p t r.0 e opens seat in
          (ground (arith, k, k'), t', ground (arith, e'), n' ∙ n)
    ]

overlapping-Keeps :
    (seat : ℕ) (accepted : Option ℕ) (opens : ℕ → Option ℕ) (c : Context) (p : ℕ) (s : Session)
    (state : State)
    → Holds c p s state
    → Keeps p s c (open_overlapping seat accepted opens c).0
unfolding open_overlapping obtain_session
overlapping-Keeps seat accepted opens c p s state v =
    let s1 : Session = record s { next_seat = (seat + 1) % 2 ^ 64 } in
    let c1 : Context = record c { store = set c.store p s1 } in
    let (k, t, e, n) =
      open_client-Keeps accepted opens c1 p s1 seat (get_elem?-set_self c.store p s1 s v.stored) in
    (ground (arith, v.snapped, v.stored, k), t, ground (arith, v.snapped, v.stored, e), n)

module _ (c c' : Context) (p : ℕ) (s : Session) where
  Keeps-Holds :
      (state : State)
      → Holds c p s state
      → Keeps p s c c'
      → (t : Session) × Holds c' p t state × (t.agent.client ≡ s.agent.client)
  Keeps-Holds state v (k, t, e, n) = (t, record { snapped = k ∙ v.snapped; stored = e }, n)

-- What keeps the session that is there, leaves one.
kept-HasSession :
    (c c' : Context)
    → ((p : ℕ) (s : Session) (state : State) → Holds c p s state → Keeps p s c c')
    → HasSession c
    → HasSession c'
kept-HasSession c c' keeps (p, s, inl (v, n)) =
    let (t, w, e) = Keeps-Holds c c' p s state_created v (keeps p s _ v) in (p, t, inl (w, e ∙ n))
kept-HasSession c c' keeps (p, s, inr (inl (v, n))) =
    let (t, w, e) = Keeps-Holds c c' p s state_evaluated v (keeps p s _ v) in
    (p, t, inr (inl (w, e ∙ n)))
kept-HasSession c c' keeps (p, s, inr (inr (v, n))) =
    let (t, w, e) = Keeps-Holds c c' p s state_finished v (keeps p s _ v) in
    (p, t, inr (inr (w, λ h. n (sym e ∙ h))))

pub opening-HasSession :
    (accepted : Option ℕ) (opens : ℕ → Option ℕ) (c : Context)
    → HasSession c
    → HasSession (open_session_channel accepted opens c).0
opening-HasSession accepted opens c = kept-HasSession c _ (opening-Keeps accepted opens c)

pub overlapping-HasSession :
    (seat : ℕ) (accepted : Option ℕ) (opens : ℕ → Option ℕ) (c : Context)
    → HasSession c
    → HasSession (open_overlapping seat accepted opens c).0
overlapping-HasSession seat accepted opens c =
    kept-HasSession c _ (overlapping-Keeps seat accepted opens c)

module _ (d : Option ChannelData) (dial : DialTcp) (accepted : Option ℕ) (c : Context) where
  -- The handler of a forwarded port writes nothing in the context.
  forward-unwritten :
      HasSession c → (direct_tcpip_handler (some local_port_forwarding) d dial accepted c).0 ≡ c
  unfolding direct_tcpip_handler obtain_session
  forward-unwritten (p, s, inl (v, n)) = ground (arith, v.snapped, v.stored)
  forward-unwritten (p, s, inr (inl (v, n))) = ground (arith, v.snapped, v.stored)
  forward-unwritten (p, s, inr (inr (v, n))) = ground (arith, v.snapped, v.stored)

  pub forward-HasSession :
      HasSession c
      → HasSession (direct_tcpip_handler (some local_port_forwarding) d dial accepted c).0
  forward-HasSession v = rw (forward-unwritten v) v

  -- Nor does it panic in a context whose session is finished, where Dial panics on no client but nil.
  pub forward-not_panic :
      ((client : ℕ) (address : Text) → dial (some client) address ≢ panic)
      → HasSession c
      → IsFinished c
      → (direct_tcpip_handler (some local_port_forwarding) d dial accepted c).1 ≢ panic
  unfolding direct_tcpip_handler local_port_forwarding obtain_session
  forward-not_panic client_dial (p, s, inl (v, n)) (q, e) h = ground (arith, v.snapped, e)
  forward-not_panic client_dial (p, s, inr (inl (v, n))) (q, e) h = ground (arith, v.snapped, e)
  forward-not_panic client_dial (p, s, inr (inr (v, n))) f h = elim (Option-cases s.agent.client) [
    | inl gone ↦ n gone
    | inr (client, a) ↦ elim (Option-cases d) [
      | inl e ↦ ground (arith, v.snapped, v.stored, e, h)
      | inr (data', e) ↦
          ground (arith, v.snapped, v.stored, a, e, client_dial client (destination data'), h)
    ]
  ]
