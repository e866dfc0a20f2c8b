-- ===== src/Channels/Pipes/Returning.antt =====
-- ssh/server/channels/utils.go: what has been delivered whenever pipe or hose has returned.
use mini_shellhub.Prelude.{
  Reach-preserves, here, next, ℕ, List, ◌++◌, ◌≡◌, refl, Bool, true, false, none, some, ◌⊎◌, inl,
  inr, arith,
}
use mini_shellhub.Copies.{
  Stream, Copy, Room, window, IsDone, writes_out, writes_err, reads_out, reads_err,
}
use mini_shellhub.Copies
use mini_shellhub.Copies.Laws.{out_bytes, err_bytes, copied-whole}
use mini_shellhub.Channels.Pipes.{AgentEnd, closes_write}
use mini_shellhub.Channels.Pipes.Threads.{
  Pipe, begin, PipeStep, pipes_agent, pipes_client, signals, PipeReach, HoseStep, hoses_agent,
  hoses_client, HoseReach, HasReturned,
}
use mini_shellhub.Channels.Pipes.Threads

-- A copy that has returned makes no further step.
IsDone-stuck : {room : Room} {c d : Copy} → IsDone c → Copies.Step room c d → ⊥
IsDone-stuck v (writes_out b rest t r) = ground (arith, v.written)
IsDone-stuck v (writes_err b rest t r) = ground (arith, v.written)
IsDone-stuck v (reads_out b rest o) = ground (arith, v.out_read)
IsDone-stuck v (reads_err b rest t o e) = ground (arith, v.err_read)

-- Each direction is a run of its own copy, at its end once its goroutine has gone past it.
pub record Inv (room : Room) (ended : AgentEnd) (agent client : List (Stream × ℕ)) (p : Pipe)
    : Type 0 where
  pub agent_run : Copies.Reach room (Copies.start agent) p.to_client
  pub client_run : Copies.Reach room (Copies.start client) p.to_agent
  pub agent_done : (p.signalled ≡ false) × (p.client_closed ≡ false) ⊎ IsDone p.to_client
  pub client_done : (p.agent_ended ≡ none) ⊎ (p.agent_ended ≡ some ended) × IsDone p.to_agent

module _ {room : Room} {ended : AgentEnd} (agent client : List (Stream × ℕ)) where
  begin-Inv : Inv room ended agent client (begin agent client)
  unfolding begin
  begin-Inv = record {
    agent_run = here;
    client_run = here;
    agent_done = inl (refl, refl);
    client_done = inl refl;
  }

  module _ {p : Pipe} (v : Inv room ended agent client p) where
    agent_step :
        {d : Copy}
        → Copies.Step room p.to_client d
        → Inv room ended agent client (record p { to_client = d })
    agent_step s = record {
      agent_run = next v.agent_run s;
      client_run = v.client_run;
      agent_done = elim v.agent_done [ inl h ↦ inl h | inr d ↦ absurd (IsDone-stuck d s) ];
      client_done = v.client_done;
    }

    client_step :
        {d : Copy}
        → Copies.Step room p.to_agent d
        → Inv room ended agent client (record p { to_agent = d })
    client_step s = record {
      agent_run = v.agent_run;
      client_run = next v.client_run s;
      agent_done = v.agent_done;
      client_done = elim v.client_done [ inl h ↦ inl h | inr (e, d) ↦ absurd (IsDone-stuck d s) ];
    }

    client_end :
        IsDone p.to_agent → Inv room ended agent client (record p { agent_ended = some ended })
    client_end d = record {
      agent_run = v.agent_run;
      client_run = v.client_run;
      agent_done = v.agent_done;
      client_done = inr (refl, d);
    }

    agent_end :
        (signalled closed : Bool)
        → IsDone p.to_client
        → Inv room ended agent client (record p { signalled = signalled; client_closed = closed })
    agent_end signalled closed d = record {
      agent_run = v.agent_run;
      client_run = v.client_run;
      agent_done = inr d;
      client_done = v.client_done;
    }

    was-IsDone : p.signalled ≡ true → IsDone p.to_client
    was-IsDone h = elim v.agent_done [ inl (s, c) ↦ absurd (ground arith) | inr d ↦ d ]

  PipeStep-Inv :
      {p q : Pipe}
      → PipeStep room ended p q
      → Inv room ended agent client p
      → Inv room ended agent client q
  PipeStep-Inv (pipes_agent s) v = agent_step v s
  PipeStep-Inv (pipes_client s) v = client_step v s
  PipeStep-Inv {p} (signals d) v = agent_end v true p.client_closed d
  PipeStep-Inv {p} (Threads.PipeStep.closes_client h) v =
      agent_end v p.signalled true (was-IsDone v h)
  PipeStep-Inv (Threads.PipeStep.closes_agent d) v = client_end v d

  pub PipeReach-Inv :
      {p : Pipe} → PipeReach room ended (begin agent client) p → Inv room ended agent client p
  PipeReach-Inv r = Reach-preserves (λ p q. PipeStep-Inv) r begin-Inv

  Inv-delivered :
      {p : Pipe}
      → Inv room ended agent client p
      → HasReturned p
      → (p.to_client.copied ≡ out_bytes agent ++ err_bytes agent)
        × (p.to_agent.copied ≡ out_bytes client ++ err_bytes client)
        × (p.agent_ended ≡ some ended)
  Inv-delivered {p} v h = elim v.agent_done [
    | inl (s, c) ↦ absurd (ground (arith, h.client))
    | inr d ↦ elim v.client_done [
      | inl e ↦ absurd (h.agent e)
      | inr (e, f) ↦ (copied-whole agent v.agent_run d, copied-whole client v.client_run f, e)
    ]
  ]

  -- Whenever pipe has returned, each side has the other's whole output followed by its standard error.
  pub pipe_returned :
      {p : Pipe}
      → PipeReach room ended (begin agent client) p
      → HasReturned p
      → (p.to_client.copied ≡ out_bytes agent ++ err_bytes agent)
        × (p.to_agent.copied ≡ out_bytes client ++ err_bytes client)
        × (p.agent_ended ≡ some ended)
  pipe_returned r h = Inv-delivered (PipeReach-Inv r) h

module _ {room : Room} (agent client : List (Stream × ℕ)) where
  HoseStep-Inv :
      {p q : Pipe}
      → HoseStep room p q
      → Inv room closes_write agent client p
      → Inv room closes_write agent client q
  HoseStep-Inv (hoses_agent s) v = agent_step agent client v s
  HoseStep-Inv (hoses_client s) v = client_step agent client v s
  HoseStep-Inv {p} (Threads.HoseStep.closes_client d) v =
      agent_end agent client v p.signalled true d
  HoseStep-Inv (Threads.HoseStep.closes_agent d) v = client_end agent client v d

  pub HoseReach-Inv :
      {p : Pipe} → HoseReach room (begin agent client) p → Inv room closes_write agent client p
  HoseReach-Inv r = Reach-preserves (λ p q. HoseStep-Inv) r (begin-Inv agent client)

  -- The same holds whenever hose has returned.
  pub hose_returned :
      {p : Pipe}
      → HoseReach room (begin agent client) p
      → HasReturned p
      → (p.to_client.copied ≡ out_bytes agent ++ err_bytes agent)
        × (p.to_agent.copied ≡ out_bytes client ++ err_bytes client)
        × (p.agent_ended ≡ some closes_write)
  hose_returned r h = Inv-delivered agent client (HoseReach-Inv r) h
