-- ===== src/Channels/Globals.antt =====
-- ssh/server/channels/session.go: the loops over global requests. Those of all session channels of a
-- client read from one Go channel, sess.Agent.Requests, on which the SSH library hands over what the
-- agent sends, which is keepalives. The library holds a number of unread requests; with one more, its
-- reader of the agent's connection waits, and then nothing else on that connection is read.
pub mod Accounting
pub mod Idle
use mini_shellhub.Prelude.{ℕ, zero, suc, ◌+◌, ◌≤◌, ◌<◌, ◌≡◌}

pub record Globals : Type 0 where
  -- The loops of channels that are open, and of channels that the client has closed; such a loop goes on
  -- until the next keepalive, which it cannot send.
  pub open_loops : ℕ
  pub closed_loops : ℕ
  -- The keepalives that the library has and no loop has read.
  pub held : ℕ
  pub arrived : ℕ
  -- The keepalives that were passed on to a client's channel, and those that a loop has read in vain.
  pub delivered : ℕ
  pub dropped : ℕ
  pub closings : ℕ

unfoldable pub start : Globals
start = record {
  open_loops = 0;
  closed_loops = 0;
  held = 0;
  arrived = 0;
  delivered = 0;
  dropped = 0;
  closings = 0;
}

module _ (capacity : ℕ) where
  pub data Step (g : Globals) : Globals → Type 0 where
    -- The agent's answer to OpenChannel is read by the library's reader, which must not wait.
    channel_opens : g.held ≤ capacity → Step g (record g { open_loops = g.open_loops + 1 })
    channel_closes :
        (n : ℕ)
        → g.open_loops ≡ suc n
        → Step g (record g {
          open_loops = n;
          closed_loops = g.closed_loops + 1;
          closings = g.closings + 1;
        })
    keepalive_arrives :
        g.held ≤ capacity → Step g (record g { held = g.held + 1; arrived = g.arrived + 1 })
    open_loop_reads :
        (k : ℕ)
        → 0 < g.open_loops
        → g.held ≡ suc k
        → Step g (record g { held = k; delivered = g.delivered + 1 })
    -- SendRequest fails on a closed channel, and the loop returns.
    closed_loop_reads :
        (n k : ℕ)
        → g.closed_loops ≡ suc n
        → g.held ≡ suc k
        → Step g (record g { closed_loops = n; held = k; dropped = g.dropped + 1 })
