-- ===== src/Tests/Sharing.antt =====
-- What the channels of one connection share, on concrete inputs.
use mini_shellhub.Prelude.{
  Reach, here, next, ℕ, [], ◌≡◌, ◌↔◌, refl, Option, none, some, true, false, codes, arith, All,
}
use mini_shellhub.Agent.Config.{pos}
use mini_shellhub.Session.Racing.{Race, Step as RaceStep, start as no_handlers}
use mini_shellhub.Session.Racing.Laws.{seats_free_iff}
use mini_shellhub.Channels.Opening.Arriving.{logged_in, logged_in-Seated}
use mini_shellhub.Channels.Globals.{Globals, start, Step, channel_opens, channel_closes}
use mini_shellhub.Channels.Globals.Accounting.{Inv, Globals-Inv}
use mini_shellhub.Channels.Globals.Idle.{can_step, idle_blocks}
use mini_shellhub.Agent.Server.{Platform, Server}
use mini_shellhub.Agent.Server.Sharing.{
  Conn, Step as ConnStep, start as no_sessions, IsOwn, handled_as_asked_iff,
}
use mini_shellhub.Tests.Fixtures.{address, client_host, user_name, door, conn}

abbrev opens : ℕ → Option ℕ
opens client = some 9

-- A channel that was opened and closed; its loop is left.
abbrev idle : Globals
idle = record start { open_loops = 0; closed_loops = 1; closings = 1 }

idle-Reach : Reach (Step 16) start idle
unfolding start
idle-Reach = next (next here (channel_opens (omega arith))) (channel_closes 0 refl)

Globals-Inv_example : Inv 16 idle
Globals-Inv_example = Globals-Inv idle-Reach

idle_blocks_example :
    (h : Globals) × Reach (Step 16) idle h
    × (can_step 16 h ≡ false)
    × (h.delivered ≡ idle.delivered)
idle_blocks_example = idle_blocks idle-Reach refl

abbrev platform : Platform
platform = record {
  user_ids = λ user. some (pos 1000, pos 1000);
  agent_socket = none;
  directory = λ path. path;
  chown = λ path ids. true;
}

handled_as_asked_iff_example :
    ((c : Conn) → Reach (ConnStep platform true) no_sessions c → All (IsOwn platform) c.handled)
    ↔ (true ≡ false)
handled_as_asked_iff_example = handled_as_asked_iff platform true

abbrev quiet : Server
quiet = record { sessions = []; cmds = []; closed = []; killed = [] }

seats_free_iff_example :
    ((r : Race)
      → Reach
          (RaceStep true)
          (no_handlers (logged_in user_name address (codes "id") client_host door conn (1, 2)))
          r
      → r.refused ≡ 0)
    ↔ (true ≡ false)
seats_free_iff_example =
    seats_free_iff (logged_in user_name address (codes "id") client_host door conn (1, 2)) true
      (logged_in-Seated user_name address (codes "id") client_host door conn (1, 2))
