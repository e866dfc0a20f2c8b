-- ===== src/Process/Calls.antt =====
-- ssh/main.go, main: the invariant of the process, and that each call which does not panic keeps it.
use mini_shellhub.Prelude.{
  ℕ, Text, [], ◌∷◌, ◌++◌, ◌≡◌, ◌≢◌, ◌⊎◌, refl, Option, none, some, Bool, true, false, Result, ok,
  err, panic, set, inl, inr, All, All-append_last, All-set,
}
use mini_shellhub.Devices.Handlers.{Reach as DeviceReach}
use mini_shellhub.Devices.{YamuxOpen}
use mini_shellhub.Session.Types.{Context, SessionError}
use mini_shellhub.Server.{Banner, banner_handler}
use mini_shellhub.Server.Banners.{opened as context_of}
use mini_shellhub.Server.Setup.{Start, fatal, listen_failed, serves}
use mini_shellhub.Server.Holding.{HasSession}
use mini_shellhub.Process.{
  tunnel_of, connect_client, connected, received, no_key, raced, Process, main_end, begin_ssh,
  after_call, login_client, serve_channel,
}

-- Why the process has ended: no key could be made, two handlers have written a map at once, or main has
-- received a server's result.
abbrev pub Cause : Process → Type 0
Cause p =
    (p.exit ≡ none)
    ⊎ (p.exit ≡ some no_key)
    ⊎ (p.exit ≡ some raced)
    ⊎ ((r : Option Text) × (p.exit ≡ some (main_end r))
        × ((p.http ≡ received r) ⊎ (p.ssh ≡ received r)))

pub record Inv (p : Process) : Type 0 where
  pub world_reached : DeviceReach p.world
  pub sessions_held : All (λ k. HasSession k.context) p.clients
  pub cause : Cause p

after_call-lem :
    {A : Type 0} (r : Result SessionError A) (p : Process) → r ≢ panic → after_call r p ≡ p
unfolding after_call
after_call-lem (ok a) p n = refl
after_call-lem (err e) p n = refl
after_call-lem panic p n = absurd (n refl)

pub login-Inv :
    (i : ℕ) (r : Context × Result SessionError Bool) (p : Process)
    → p.exit ≡ none
    → HasSession r.0
    → r.1 ≢ panic
    → Inv p
    → Inv (login_client i r p)
unfolding login_client
login-Inv i (c, result) p e h n v =
    rw (after_call-lem result (record p { clients = set p.clients i _ }) n) (record {
      world_reached = v.world_reached;
      sessions_held = All-set (λ k. HasSession k.context) p.clients i _ v.sessions_held h;
      cause = inl e;
    })

pub channel-Inv :
    {A : Type 0} (i : ℕ) (r : Context × Result SessionError A) (p : Process)
    → p.exit ≡ none
    → HasSession r.0
    → r.1 ≢ panic
    → Inv p
    → Inv (serve_channel i r p)
unfolding serve_channel
channel-Inv i (c, result) p e h n v =
    rw (after_call-lem result (record p { clients = set p.clients i _ }) n) (record {
      world_reached = v.world_reached;
      sessions_held = All-set (λ k. HasSession k.context) p.clients i _ v.sessions_held h;
      cause = inl e;
    })

pub connected-Inv :
    (r : Context × Result SessionError Banner) (p : Process)
    → p.exit ≡ none
    → HasSession r.0
    → r.1 ≢ panic
    → Inv p
    → Inv (connected r p)
unfolding connected
connected-Inv (c, result) p e h n v =
    rw (after_call-lem result (record p { clients = p.clients ++ _ ∷ [] }) n) (record {
      world_reached = v.world_reached;
      sessions_held = All-append_last (λ k. HasSession k.context) p.clients _ v.sessions_held h;
      cause = inl e;
    })

pub begin_ssh-Inv :
    (e : Text) (s : Start) (p : Process) → p.exit ≡ none → Inv p → Inv (begin_ssh e s p)
unfolding begin_ssh
begin_ssh-Inv e fatal p n v = record {
  world_reached = v.world_reached;
  sessions_held = v.sessions_held;
  cause = inr (inl refl);
}
begin_ssh-Inv e listen_failed p n v = record {
  world_reached = v.world_reached;
  sessions_held = v.sessions_held;
  cause = inl n;
}
begin_ssh-Inv e serves p n v = record {
  world_reached = v.world_reached;
  sessions_held = v.sessions_held;
  cause = inl n;
}

-- What a call that returns leaves of the process.
pub connect_client-ok :
    (yo : YamuxOpen) (user addr id : Text) (p : Process) (c : Context) (b : Banner)
    → banner_handler (tunnel_of yo p) (context_of user addr id) ≡ (c, ok b)
    → connect_client yo user addr id p
      ≡ record p { clients = p.clients ++ record { context = c; accepted = false } ∷ [] }
unfolding connect_client connected after_call
connect_client-ok yo user addr id p c b e = rw e refl

pub login_client-ok :
    (i : ℕ) (r : Context × Result SessionError Bool) (p : Process) (c : Context) (b : Bool)
    → r ≡ (c, ok b)
    → login_client i r p
      ≡ record p { clients = set p.clients i (record { context = c; accepted = b }) }
unfolding login_client after_call
login_client-ok i r p c b e = rw e refl

pub serve_channel-ok :
    {A : Type 0} (i : ℕ) (r : Context × Result SessionError A) (p : Process) (a : A)
    → r.1 ≡ ok a
    → serve_channel i r p
      ≡ record p { clients = set p.clients i (record { context = r.0; accepted = true }) }
unfolding serve_channel after_call
serve_channel-ok i (c, result) p a e = rw e refl
