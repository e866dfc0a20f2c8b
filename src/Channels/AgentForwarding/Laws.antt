-- ===== src/Channels/AgentForwarding/Laws.antt =====
-- ssh/server/channels/session.go, agent forwarding: which channels are joined, and when they are closed.
use mini_shellhub.Prelude.{
  ℕ, Text, List, [], ◌∷◌, ◌++◌, ◌≡◌, ◌≢◌, ◌⊎◌, refl, none, some, arith, append-nil, append_assoc,
  codes, Option-cases, inl, inr,
}
use mini_shellhub.Channels.AgentForwarding.{
  Offer, Forwarder, start, forward_loop, offers_end, on_offer,
}

-- The offers that are served: up to the first of which one side fails.
abbrev pub served : List Offer → List (ℕ × ℕ)
served [] = []
served (o ∷ os) = elim o.accepted [
  | none ↦ []
  | some agent ↦ elim o.opened [ none ↦ [] | some client ↦ (agent, client) ∷ served os ]
]

-- Every channel that is accepted or opened, the last first, in front of others.
abbrev pub opened_before : List Offer → List ℕ → List ℕ
opened_before [] cs = cs
opened_before (o ∷ os) cs = elim o.accepted [
  | none ↦ cs
  | some agent ↦ elim o.opened [
    | none ↦ agent ∷ cs
    | some client ↦ opened_before os (client ∷ agent ∷ cs)
  ]
]

forward_loop-returned :
    (os : List Offer) (f : Forwarder) (message : Text)
    → f.rejected ≡ some message
    → forward_loop os f ≡ f
unfolding forward_loop on_offer
forward_loop-returned [] f message h = refl
forward_loop-returned (o ∷ os) f message h = ground (arith, forward_loop-returned os f message h)

forward_loop_lem :
    (os : List Offer) (f : Forwarder)
    → f.rejected ≡ none
    → f.closed ≡ []
    → ((forward_loop os f).hosed ≡ f.hosed ++ served os)
      × ((offers_end (forward_loop os f)).closed ≡ opened_before os f.deferred)
      × (((forward_loop os f).rejected ≢ none)
          ⊎ ((forward_loop os f).closed ≡ [])
            × ((forward_loop os f).deferred ≡ opened_before os f.deferred))
unfolding forward_loop on_offer offers_end
forward_loop_lem [] f h c = ground (arith, append-nil f.hosed)
forward_loop_lem (o ∷ os) f h c = elim (Option-cases o.accepted) [
  | inl e ↦ ground (
    arith,
    forward_loop-returned os (on_offer f.rejected o f)
        (codes "failed to accept the chanel request from agent on auth request"),
    append-nil f.hosed,
  )
  | inr (agent, e) ↦ elim (Option-cases o.opened) [
    | inl d ↦ ground (
      arith,
      forward_loop-returned os (on_offer f.rejected o f)
          (codes "failed to open the auth request channel from agent to client"),
      append-nil f.hosed,
    )
    | inr (client, d) ↦ ground (
      arith,
      forward_loop_lem os (on_offer f.rejected o f),
      append_assoc f.hosed ((agent, client) ∷ []) (served os),
    )
  ]
]

-- Of the channels that the agent opens, each is joined with one of the client's, in order, up to the
-- first that fails on one side. All channels that were opened stay open as long as the goroutine runs,
-- also those whose data has been copied to the end; when it has returned each has been closed once, the
-- last first.
pub forwarding_lem :
    (os : List Offer)
    → ((forward_loop os start).hosed ≡ served os)
      × ((offers_end (forward_loop os start)).closed ≡ opened_before os [])
      × (((forward_loop os start).rejected ≢ none)
          ⊎ ((forward_loop os start).closed ≡ [])
            × ((forward_loop os start).deferred ≡ opened_before os []))
unfolding start
forwarding_lem os = forward_loop_lem os start refl refl
