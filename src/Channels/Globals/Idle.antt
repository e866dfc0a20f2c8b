-- ===== src/Channels/Globals/Idle.antt =====
-- ssh/server/channels/session.go: a connection whose session channels are all closed.
use mini_shellhub.Prelude.{
  Reach-before, Reach, here, next, Reach-trans, ℕ, zero, suc, ◌+◌, ◌-◌, ◌≤◌, ◌≡◌, refl, arith, Bool,
  true, false, ◌||◌, ◌&&◌, leb, ltb,
}
use mini_shellhub.Channels.Globals.{
  Globals, start, Step, channel_opens, channel_closes, keepalive_arrives, open_loop_reads,
  closed_loop_reads,
}
use mini_shellhub.Channels.Globals.Accounting.{Globals-Inv}

-- Whether any step can be made.
abbrev pub can_step : ℕ → Globals → Bool
can_step capacity g =
    leb g.held capacity || ltb 0 g.open_loops || (ltb 0 g.closed_loops && ltb 0 g.held)

module _ {capacity : ℕ} where
  pub Step-can_step : {g h : Globals} → Step capacity g h → can_step capacity g ≡ true
  Step-can_step {g} (channel_opens e) = ground arith
  Step-can_step {g} (channel_closes n e) = ground arith
  Step-can_step {g} (keepalive_arrives e) = ground arith
  Step-can_step {g} (open_loop_reads k o e) = ground arith
  Step-can_step {g} (closed_loop_reads n k o e) = ground arith

  -- A state without loops fills up.
  fills :
      (room : ℕ) (g : Globals)
      → g.held + room ≡ capacity + 1
      → g.open_loops ≡ 0
      → g.closed_loops ≡ 0
      → (h : Globals) × Reach (Step capacity) g h
        × (can_step capacity h ≡ false)
        × (h.delivered ≡ g.delivered)
  fills zero g e o c = (g, here, ground arith, refl)
  fills (suc room) g e o c =
      let (h, r, stuck, d) =
        fills room (record g { held = g.held + 1; arrived = g.arrived + 1 }) (omega arith) o c in
      (h, Reach-before (keepalive_arrives (omega arith)) r, stuck, d)

  -- The loops of closed channels read one keepalive each.
  empties :
      (loops held : ℕ) (g : Globals)
      → g.closed_loops ≡ loops
      → g.held ≡ held
      → held ≤ capacity + 1
      → g.open_loops ≡ 0
      → (h : Globals) × Reach (Step capacity) g h
        × (h.held ≤ capacity + 1)
        × (h.open_loops ≡ 0)
        × (h.closed_loops ≡ 0)
        × (h.delivered ≡ g.delivered)
  empties zero held g c e l o = (g, here, omega arith, o, c, refl)
  empties (suc loops) (suc held) g c e l o =
      let (h, r, w, n, m, d) =
        empties loops held (record g { closed_loops = loops; held = held; dropped = g.dropped + 1 })
          refl refl (omega arith) o in
      (h, Reach-before (closed_loop_reads loops held c e) r, w, n, m, d)
  empties (suc loops) zero g c e l o =
      let waiting : Globals = record g { held = g.held + 1; arrived = g.arrived + 1 } in
      let (h, r, w, n, m, d) =
        empties loops 0
          (record waiting { closed_loops = loops; held = 0; dropped = waiting.dropped + 1 }) refl
          refl (omega arith) o in
      (
        h,
        Reach-trans
            (next (next here (keepalive_arrives (omega arith)))
              (closed_loop_reads loops 0 c (omega arith)))
            r,
        w,
        n,
        m,
        d,
      )

  -- Once the client has closed all its session channels, whatever is still held, the agent's keepalives
  -- can come to where nothing can be done: no loop is left to read them, the library's reader waits, and
  -- so no channel can be opened again.
  pub idle_blocks :
      {g : Globals}
      → Reach (Step capacity) start g
      → g.open_loops ≡ 0
      → (h : Globals) × Reach (Step capacity) g h
        × (can_step capacity h ≡ false)
        × (h.delivered ≡ g.delivered)
  idle_blocks {g} r o =
      let (u, q, w, n, m, d) = empties g.closed_loops g.held g refl refl (Globals-Inv r).within o in
      let (h, p, stuck, d') = fills (capacity + 1 - u.held) u (omega arith) n m in
      (h, Reach-trans q p, stuck, cc)
