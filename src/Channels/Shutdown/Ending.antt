-- ===== src/Channels/Shutdown/Ending.antt =====
-- ssh/server/channels/session.go: the handler of a session channel can end exactly if a request of the
-- client has started the pipe; a shell without a terminal never does.
use mini_shellhub.Prelude.{
  Reach-before, Reach-preserves, here, next, List, [], ◌∷◌, ◌++◌, ◌≡◌, refl, ◌∙◌, true, false,
  arith, ◌||◌,
}
use mini_shellhub.Channels.Requests.{Incoming}
use mini_shellhub.Channels.Requests.Laws.{some_starts, on_client_request_lem, on_agent_request_lem}
use mini_shellhub.Channels.Shutdown.{
  AgentPhase, reading, awaiting, returned, PipePhase, absent, copying, signalling, ended, Threads,
  reads_request, Step, global_returns, client_returns, agent_leaves, client_requests,
  agent_requests, copy_ends, meets, Reach, IsDone, start,
}

-- The pipe is there exactly if it was started, and the agent's loop has returned exactly if it met
-- the pipe.
pub record Inv (t : Threads) : Type 0 where
  pub absent_unstarted : t.pipe_phase ≡ absent → t.bridge.pipe_started ≡ false
  pub unstarted_absent : t.bridge.pipe_started ≡ false → t.pipe_phase ≡ absent
  pub ended_returned : t.pipe_phase ≡ ended → t.agent_phase ≡ returned
  pub returned_ended : t.agent_phase ≡ returned → t.pipe_phase ≡ ended

start-Inv : Inv start
unfolding start
start-Inv = ground arith

reads_request-Inv : (i : Incoming) (t : Threads) → Inv t → Inv (reads_request i t)
unfolding reads_request
reads_request-Inv i t v = ground (arith, on_client_request_lem t.bridge i)

pub Step-Inv : {t u : Threads} → Step t u → Inv t → Inv u
Step-Inv global_returns v = ground arith
Step-Inv client_returns v = ground arith
Step-Inv (agent_leaves h) v = ground arith
Step-Inv {t} (client_requests i h) v = reads_request-Inv i t v
Step-Inv {t} (agent_requests i h) v = ground (arith, on_agent_request_lem t.bridge i)
Step-Inv (copy_ends h) v = ground arith
Step-Inv (meets h k) v = ground arith

Reach-Inv : {t u : Threads} → Inv t → Reach t u → Inv u
Reach-Inv v r = Reach-preserves (λ t u. Step-Inv) r v

-- The client's requests in a history, oldest first.
abbrev pub step_requests : {t u : Threads} → Step t u → List Incoming
step_requests (client_requests i h) = i ∷ []
step_requests _ = []

abbrev pub requests_of : {t u : Threads} → Reach t u → List Incoming
requests_of here = []
requests_of (next r s) = requests_of r ++ step_requests s

some_starts-append :
    (is js : List Incoming) → some_starts (is ++ js) ≡ (some_starts is || some_starts js)
some_starts-append [] js = refl
some_starts-append (i ∷ is) js = ground (arith, some_starts-append is js)

Step-started :
    {t u : Threads} (s : Step t u)
    → u.bridge.pipe_started ≡ (t.bridge.pipe_started || some_starts (step_requests s))
unfolding reads_request
Step-started global_returns = ground arith
Step-started client_returns = ground arith
Step-started (agent_leaves h) = ground arith
Step-started {t} (client_requests i h) = ground (arith, on_client_request_lem t.bridge i)
Step-started {t} (agent_requests i h) = ground (arith, on_agent_request_lem t.bridge i)
Step-started (copy_ends h) = ground arith
Step-started (meets h k) = ground arith

reach_started :
    {t : Threads} (r : Reach start t) → t.bridge.pipe_started ≡ some_starts (requests_of r)
unfolding start
reach_started here = refl
reach_started (next r s) =
    ground
      (arith, Step-started s, reach_started r, some_starts-append (requests_of r) (step_requests s))

-- In every history after which the handler has returned, the client made a request for a terminal, a
-- command or a subsystem that was sent to the agent. So it never returns where a client only asks for
-- a shell.
pub done-some_starts :
    {t : Threads} (r : Reach start t) → IsDone t → some_starts (requests_of r) ≡ true
done-some_starts {t} r d = ground (arith, reach_started r, Reach-Inv start-Inv r)

abbrev Ends : Threads → Type 0
Ends t = (u : Threads) × Reach t u × IsDone u

Step-Ends : {t u : Threads} → Step t u → Ends u → Ends t
Step-Ends s (u, r, d) = (u, Reach-before s r, d)

returned_Ends : (t : Threads) → t.agent_phase ≡ returned → Ends t
returned_Ends t h = (
  record t { global_returned = true; client_returned = true },
  next (next here global_returns) client_returns,
  record { global = refl; client = refl; agent = h },
)

meeting_Ends : (t : Threads) → t.pipe_phase ≡ signalling → t.agent_phase ≡ awaiting → Ends t
meeting_Ends t h k = Step-Ends (meets h k) (returned_Ends _ refl)

signalling_Ends :
    (t : Threads) (a : AgentPhase) → t.agent_phase ≡ a → t.pipe_phase ≡ signalling → Ends t
signalling_Ends t reading e h = Step-Ends (agent_leaves e) (meeting_Ends _ h refl)
signalling_Ends t awaiting e h = meeting_Ends t h e
signalling_Ends t returned e h = returned_Ends t e

started_Ends :
    (t : Threads) (p : PipePhase) → t.pipe_phase ≡ p → Inv t → t.bridge.pipe_started ≡ true → Ends t
started_Ends t absent e v s = absurd (ground (arith, v.absent_unstarted e))
started_Ends t copying e v s = Step-Ends (copy_ends e) (signalling_Ends _ t.agent_phase refl refl)
started_Ends t signalling e v s = signalling_Ends t t.agent_phase refl e
started_Ends t ended e v s = returned_Ends t (v.ended_returned e)

-- Once a request that starts the pipe was sent, in any history, the handler can still return.
pub started-Ends :
    {t : Threads} (r : Reach start t)
    → some_starts (requests_of r) ≡ true
    → (u : Threads) × Reach t u × IsDone u
started-Ends {t} r s =
    started_Ends t t.pipe_phase refl (Reach-Inv start-Inv r) (reach_started r ∙ s)
