-- ===== src/Channels/Globals/Accounting.antt =====
-- ssh/server/channels/session.go: what becomes of each keepalive.
use mini_shellhub.Prelude.{Reach, Reach-preserves, ℕ, ◌+◌, ◌≤◌, ◌≡◌, arith}
use mini_shellhub.Channels.Globals.{
  Globals, start, Step, channel_opens, channel_closes, keepalive_arrives, open_loop_reads,
  closed_loop_reads,
}

-- Every keepalive is accounted for, each closed channel costs one at most, and the library holds no more
-- than it can and the one that its reader waits with.
pub record Inv (capacity : ℕ) (g : Globals) : Type 0 where
  pub accounted : g.arrived ≡ g.delivered + g.dropped + g.held
  pub one_each : g.dropped + g.closed_loops ≡ g.closings
  pub within : g.held ≤ capacity + 1

module _ {capacity : ℕ} where
  Step-Inv : {g h : Globals} → Step capacity g h → Inv capacity g → Inv capacity h
  Step-Inv (channel_opens e) v = omega arith
  Step-Inv (channel_closes n e) v = omega arith
  Step-Inv (keepalive_arrives e) v = omega arith
  Step-Inv (open_loop_reads k o e) v = omega arith
  Step-Inv (closed_loop_reads n k o e) v = omega arith

  -- Every keepalive that has arrived was passed on to a client's channel, is held, or was read by the
  -- loop of a closed channel; each closed channel loses one at most; and no more are held than the
  -- library has room for and the one that its reader waits with.
  pub Globals-Inv : {g : Globals} → Reach (Step capacity) start g → Inv capacity g
  unfolding start
  Globals-Inv r = Reach-preserves (λ c d. Step-Inv) r (omega arith)
