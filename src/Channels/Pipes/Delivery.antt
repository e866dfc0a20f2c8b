-- ===== src/Channels/Pipes/Delivery.antt =====
-- ssh/server/channels/utils.go: every run of pipe and of hose can go on until they return.
use mini_shellhub.Prelude.{
  here, next, Reach-trans, ℕ, ◌<◌, List, ◌++◌, ◌≡◌, refl, true, some, arith, length,
}
use mini_shellhub.Copies.{
  Stream, Copy, Room, window, IsDone, writes_out, writes_err, reads_out, reads_err,
}
use mini_shellhub.Copies
use mini_shellhub.Copies.Laws.{out_bytes, err_bytes}
use mini_shellhub.Copies.Ending.{window-Holds, window-HasRoom, copies_on}
use mini_shellhub.Channels.Pipes.{AgentEnd, closes_write}
use mini_shellhub.Channels.Pipes.Threads.{
  Pipe, begin, PipeStep, pipes_agent, pipes_client, signals, PipeReach, HoseStep, hoses_agent,
  hoses_client, HoseReach, HasReturned,
}
use mini_shellhub.Channels.Pipes.Threads
use mini_shellhub.Channels.Pipes.Returning.{
  pipe_returned, hose_returned, PipeReach-Inv, HoseReach-Inv,
}

both_closed :
    {p : Pipe} {e : AgentEnd} → p.client_closed ≡ true → p.agent_ended ≡ some e → HasReturned p
both_closed c a = record { client = c; agent = λ h. absurd (ground arith) }

-- The copies of a pipe, and of a hose, can go on by themselves.
module _ {room : Room} {ended : AgentEnd} {p : Pipe} where
  pipe_agent_on :
      {d : Copy}
      → Copies.Reach room p.to_client d
      → PipeReach room ended p (record p { to_client = d })
  pipe_agent_on here = here
  pipe_agent_on (next r s) = next (pipe_agent_on r) (pipes_agent s)

  pipe_client_on :
      {q : Pipe} {d : Copy}
      → PipeReach room ended p q
      → Copies.Reach room q.to_agent d
      → PipeReach room ended p (record q { to_agent = d })
  pipe_client_on h here = h
  pipe_client_on h (next r s) = next (pipe_client_on h r) (pipes_client s)

module _ {room : Room} {p : Pipe} where
  hose_agent_on :
      {d : Copy} → Copies.Reach room p.to_client d → HoseReach room p (record p { to_client = d })
  hose_agent_on here = here
  hose_agent_on (next r s) = next (hose_agent_on r) (hoses_agent s)

  hose_client_on :
      {q : Pipe} {d : Copy}
      → HoseReach room p q
      → Copies.Reach room q.to_agent d
      → HoseReach room p (record q { to_agent = d })
  hose_client_on h here = h
  hose_client_on h (next r s) = next (hose_client_on h r) (hoses_client s)

-- Both directions' standard error, with room to spare, fits in the channels' windows.
abbrev pub Fits : ℕ → List (Stream × ℕ) → List (Stream × ℕ) → Type 0
Fits size agent client = (length (err_bytes agent) < size) × (length (err_bytes client) < size)

module _ (size : ℕ) (agent client : List (Stream × ℕ)) where
  copy_on :
      (script : List (Stream × ℕ)) {c : Copy}
      → length (err_bytes script) < size
      → Copies.Reach (window size) (Copies.start script) c
      → (d : Copy) × Copies.Reach (window size) c d × IsDone d
  copy_on script h r = copies_on (window-Holds size) script (window-HasRoom size _ h) r

  -- Where both directions' standard error is less than the channels' windows, every run of pipe can be
  -- continued until it returns, when each side has the other's whole output followed by its whole standard
  -- error, and the agent's channel was ended in the way that was chosen for it.
  pub pipe_delivers :
      {p : Pipe} (ended : AgentEnd)
      → Fits size agent client
      → PipeReach (window size) ended (begin agent client) p
      → (q : Pipe) × PipeReach (window size) ended p q
        × HasReturned q
        × (q.to_client.copied ≡ out_bytes agent ++ err_bytes agent)
        × (q.to_agent.copied ≡ out_bytes client ++ err_bytes client)
        × (q.agent_ended ≡ some ended)
  pipe_delivers {p} ended f r =
      let v = PipeReach-Inv agent client r in
      let (c, cr, cd) = copy_on agent f.0 v.agent_run in
      let (d, dr, dd) = copy_on client f.1 v.client_run in
      let run =
        next
          (next (next (pipe_client_on (pipe_agent_on cr) dr) (signals cd))
            (Threads.PipeStep.closes_client refl))
          (Threads.PipeStep.closes_agent dd) in
      let returned = both_closed refl refl in
      let (out, sent, closed) = pipe_returned agent client (Reach-trans r run) returned in
      (_, run, returned, out, sent, closed)

  -- Where both directions' standard error is less than the channels' windows, every run of hose can be
  -- continued until it returns; when each side has the other's whole output followed
  -- by its whole standard error, and the agent's channel is still open for what the agent sends.
  pub hose_delivers :
      {p : Pipe}
      → Fits size agent client
      → HoseReach (window size) (begin agent client) p
      → (q : Pipe) × HoseReach (window size) p q
        × HasReturned q
        × (q.to_client.copied ≡ out_bytes agent ++ err_bytes agent)
        × (q.to_agent.copied ≡ out_bytes client ++ err_bytes client)
        × (q.agent_ended ≡ some closes_write)
  hose_delivers {p} f r =
      let v = HoseReach-Inv agent client r in
      let (c, cr, cd) = copy_on agent f.0 v.agent_run in
      let (d, dr, dd) = copy_on client f.1 v.client_run in
      let run =
        next (next (hose_client_on (hose_agent_on cr) dr) (Threads.HoseStep.closes_client cd))
          (Threads.HoseStep.closes_agent dd) in
      let returned = both_closed refl refl in
      let (out, sent, closed) = hose_returned agent client (Reach-trans r run) returned in
      (_, run, returned, out, sent, closed)
