-- ===== src/Channels/Opening/Crashing.antt =====
-- ssh/server and ssh/session: for which clients the handler of a session channel panics, which ends the
-- server, after the banner and any logins.
use mini_shellhub.Prelude.{
  ◌+◌, ◌%◌, ◌^◌, ℕ, Text, List, ◌≡◌, ◌≢◌, ◌↔◌, ◌⊎◌, refl, Option, none, some, ok, panic, arith,
  get_elem?, set, get_elem?-set_self, Option-cases, Result-cases, inl, inr, lookup, nat_key,
}
use mini_shellhub.Host.{Host, new_host}
use mini_shellhub.Target.{Target, new_target}
use mini_shellhub.Tunnel.{Tunnel}
use mini_shellhub.Session.Types.{
  Context, Session, State, state_created, state_evaluated, state_finished,
}
use mini_shellhub.Session.Operations.{obtain_session}
use mini_shellhub.Session.Channels.{new_client_channel, new_agent_channel, set_client_channel}
use mini_shellhub.Session.Seats.{seated, new_seat_lem}
use mini_shellhub.Server.{banner_handler}
use mini_shellhub.Server.Banners.{opened as context_of, banner_addr_fails, banner_user_fails}
use mini_shellhub.Server.Logins.{Holds}
use mini_shellhub.Server.Reachability.{Login, context_run}
use mini_shellhub.Channels.Opening.{open_client, open_session_channel, open_overlapping}
use mini_shellhub.Server.Holding.{
  HasSession, NoSession, run-HasSession, run-NoSession, banner-HasSession,
}

module _ (c : Context) (p : ℕ) (s : Session) (there : get_elem? c.store p ≡ some s) where
  client_channel-not_panic :
      (accepted : Option ℕ) (seat : ℕ)
      → ((new_client_channel accepted p seat c).1 ≢ panic)
        × ((get_elem? (new_client_channel accepted p seat c).0.store p) ≢ none)
  unfolding new_client_channel
  client_channel-not_panic accepted seat = elim (Option-cases (lookup seat s.client.channels)) [
    | inr (taken, e) ↦ (λ h. ground (arith, there), λ h. ground (arith, there))
    | inl e ↦ elim (Option-cases accepted) [
      | inl a ↦ (λ h. ground (arith, there), λ h. ground (arith, there))
      | inr (channel, a) ↦ (
        λ h. ground (arith, there),
        λ h. ground (
          arith,
          there,
          get_elem?-set_self c.store p (set_client_channel seat channel s) s there,
        ),
      )
    ]
  ]

  agent_channel-not_panic :
      (opens : ℕ → Option ℕ) (seat : ℕ) → (new_agent_channel opens p seat c).1 ≢ panic
  unfolding new_agent_channel
  agent_channel-not_panic opens seat h = ground (arith, there, h)

open_client-not_panic :
    (accepted : Option ℕ) (opens : ℕ → Option ℕ) (c : Context) (p : ℕ) (s : Session) (seat : ℕ)
    → get_elem? c.store p ≡ some s
    → (open_client accepted opens p seat c).1 ≢ panic
unfolding open_client
open_client-not_panic accepted opens c p s seat there h =
    let (np, kept) = client_channel-not_panic c p s there accepted seat in
    let r = new_client_channel accepted p seat c in
    elim (Option-cases (get_elem? r.0.store p)) [
      | inl gone ↦ kept gone
      | inr (t, e) ↦
          let nq = agent_channel-not_panic r.0 p t e opens seat in ground (arith, np, nq, h)
    ]

overlapping-not_panic :
    (seat : ℕ) (accepted : Option ℕ) (opens : ℕ → Option ℕ) (c : Context) (p : ℕ) (s : Session)
    (state : State)
    → Holds c p s state
    → (open_overlapping seat accepted opens c).1 ≢ panic
unfolding open_overlapping obtain_session
overlapping-not_panic seat accepted opens c p s state v h =
    let s1 : Session = record s { next_seat = (seat + 1) % 2 ^ 64 } in
    let c1 : Context = record c { store = set c.store p s1 } in
    let n =
      open_client-not_panic accepted opens c1 p s1 seat
        (get_elem?-set_self c.store p s1 s v.stored) in
    n (ground (arith, v.snapped, v.stored, h))

-- A session that is there does not panic.
opening-not_panic :
    (accepted : Option ℕ) (opens : ℕ → Option ℕ) (c : Context) (p : ℕ) (s : Session) (state : State)
    → Holds c p s state
    → (open_session_channel accepted opens c).1 ≢ panic
unfolding open_session_channel obtain_session
opening-not_panic accepted opens c p s state v h =
    let c1 : Context = record c { store = set c.store p (seated s) } in
    let (np, there) =
      client_channel-not_panic c1 p (seated s) (get_elem?-set_self c.store p (seated s) s v.stored)
        accepted s.next_seat in
    let r = new_client_channel accepted p s.next_seat c1 in
    elim (Option-cases (get_elem? r.0.store p)) [
      | inl gone ↦ there gone
      | inr (t, e) ↦
          let nq = agent_channel-not_panic r.0 p t e opens s.next_seat in
          ground (arith, v.snapped, new_seat_lem c p s v.stored, np, nq, h)
    ]

module _ (accepted : Option ℕ) (opens : ℕ → Option ℕ) (c : Context) where
  pub HasSession-not_panic : HasSession c → (open_session_channel accepted opens c).1 ≢ panic
  HasSession-not_panic (p, s, inl (v, n)) = opening-not_panic accepted opens c p s state_created v
  HasSession-not_panic (p, s, inr (inl (v, n))) =
      opening-not_panic accepted opens c p s state_evaluated v
  HasSession-not_panic (p, s, inr (inr (v, n))) =
      opening-not_panic accepted opens c p s state_finished v

  pub HasSession-overlapping :
      (seat : ℕ) → HasSession c → (open_overlapping seat accepted opens c).1 ≢ panic
  HasSession-overlapping seat (p, s, inl (v, n)) =
      overlapping-not_panic seat accepted opens c p s state_created v
  HasSession-overlapping seat (p, s, inr (inl (v, n))) =
      overlapping-not_panic seat accepted opens c p s state_evaluated v
  HasSession-overlapping seat (p, s, inr (inr (v, n))) =
      overlapping-not_panic seat accepted opens c p s state_finished v

  pub NoSession-panics : NoSession c → (open_session_channel accepted opens c).1 ≡ panic
  unfolding open_session_channel obtain_session
  NoSession-panics v = ground (arith, v)

-- After the banner and any logins, the handler of the first session channel panics exactly if the
-- client's address does not parse or its user name names no target; so it does not for want of the device,
-- of the agent's SSH client or of the client's channel, whatever the dials and handshakes returned.
opening_panics_iff :
    (tunnel : Tunnel) (user addr id : Text) (es : List Login) (accepted : Option ℕ)
    (opens : ℕ → Option ℕ)
    → ((open_session_channel accepted opens
          (context_run (banner_handler tunnel (context_of user addr id)).0 es)).1
        ≡ panic)
      ↔ (((h : Host) → new_host addr ≢ ok h) ⊎ ((t : Target) → new_target user ≢ ok t))
opening_panics_iff tunnel user addr id es accepted opens =
    let c = (banner_handler tunnel (context_of user addr id)).0 in
    elim (Result-cases (new_host addr)) [
      | inr bad ↦ (
        λ h. inl (λ k e. ground (arith, bad)),
        λ h.
            NoSession-panics accepted opens _
              (run-NoSession c es (rw (banner_addr_fails tunnel user addr id bad) (inl refl))),
      )
      | inl (h, p) ↦ elim (Result-cases (new_target user)) [
        | inr bad ↦ (
          λ k. inr (λ t e. ground (arith, bad)),
          λ k.
              NoSession-panics accepted opens _ (
                run-NoSession c es (rw (banner_user_fails tunnel user addr id h p bad) (inl refl))),
        )
        | inl (t, q) ↦ (
          λ k. absurd (
              HasSession-not_panic accepted opens _
                (run-HasSession c es (banner-HasSession tunnel user addr id h t p q)) k),
          λ k. elim k [ inl n ↦ absurd (n h p) | inr n ↦ absurd (n t q) ],
        )
      ]
    ]
