-- ===== src/Process/Worlds.antt =====
-- ssh/main.go, main: the devices of a process are only as their handlers can have left them.
use mini_shellhub.Prelude
use mini_shellhub.Prelude.{
  here, next, Reach-before, lookup, text_key, ℕ, Text, List, [], ◌∷◌, ◌++◌, ◌≡◌, ◌≢◌, ◌∙◌, ap, refl,
  sym, Option, none, some, Bool, true, false, Result, ok, err, panic, length, get_elem?, set,
  get_elem?-append_last, get_elem?-set_self, contains,
}
use mini_shellhub.Devices.{YamuxOpen}
use mini_shellhub.Devices.Handlers.{
  connects as connects_device, breaks, returns, Reach as DeviceReach, here as no_device,
  next as then_device,
}
use mini_shellhub.Session.Types.{Context, SessionError}
use mini_shellhub.Server.{Banner}
use mini_shellhub.Server.Setup.{Start, fatal, listen_failed, serves, start as start_ssh}
use mini_shellhub.Channels.Forwarding.{DialTcp}
use mini_shellhub.Process.{
  connected, after_call, Process, begin, begin_ssh, connect_client, login_client, serve_channel,
  receive_http, receive_ssh, Step, device_connects, device_breaks, device_returns, http_returns,
  ssh_starts, ssh_returns, receives_http, receives_ssh, connects, tries_password, tries_publickey,
  opens_session, overlaps_session, races, forwards,
}

-- The clients and the servers do not touch the devices' world.
after_call-world :
    {A : Type 0} (r : Result SessionError A) (p : Process) → (after_call r p).world ≡ p.world
unfolding after_call
after_call-world (ok a) p = refl
after_call-world (err e) p = refl
after_call-world panic p = refl

connected-world :
    (r : Context × Result SessionError Banner) (p : Process) → (connected r p).world ≡ p.world
unfolding connected
connected-world (c, result) p = after_call-world result _

login_client-world :
    (i : ℕ) (r : Context × Result SessionError Bool) (p : Process)
    → (login_client i r p).world ≡ p.world
unfolding login_client
login_client-world i (c, result) p = after_call-world result _

serve_channel-world :
    {A : Type 0} (i : ℕ) (r : Context × Result SessionError A) (p : Process)
    → (serve_channel i r p).world ≡ p.world
unfolding serve_channel
serve_channel-world i (c, result) p = after_call-world result _

begin_ssh-world : (e : Text) (s : Start) (p : Process) → (begin_ssh e s p).world ≡ p.world
unfolding begin_ssh
begin_ssh-world e fatal p = refl
begin_ssh-world e listen_failed p = refl
begin_ssh-world e serves p = refl

module _ (yo : YamuxOpen) (dial : DialTcp) (Arrives : Text → Text → Type 0)
    (Forwards : Context → Type 0) where
  Step-world :
      (p q : Process)
      → Step yo dial Arrives Forwards p q
      → DeviceReach p.world
      → DeviceReach q.world
  unfolding connect_client receive_http receive_ssh
  Step-world p q (device_connects id uid upgrades multiplexes e h) r =
      then_device r (connects_device id uid upgrades multiplexes)
  Step-world p q (device_breaks s e k) r = then_device r (breaks s k)
  Step-world p q (device_returns s device e w c) r = then_device r (returns s device w c)
  Step-world p q (http_returns x e s) r = r
  Step-world p q (ssh_starts generates listens x e s) r =
      rw (begin_ssh-world x (start_ssh generates listens) p) r
  Step-world p q (ssh_returns x e s) r = r
  Step-world p q (receives_http x e s) r = r
  Step-world p q (receives_ssh x e s) r = r
  Step-world p q (connects user addr id e s a) r = rw (connected-world _ p) r
  Step-world p q (tries_password i c handshake pwd e at) r = rw (login_client-world i _ p) r
  Step-world p q (tries_publickey i c handshake e at) r = rw (login_client-world i _ p) r
  Step-world p q (opens_session i c accepted opens e at) r = rw (serve_channel-world i _ p) r
  Step-world p q (overlaps_session i seat c accepted opens e at) r =
      rw (serve_channel-world i _ p) r
  Step-world p q (races i n c state e at h) r = r
  Step-world p q (forwards i c d accepted e at f) r = rw (serve_channel-world i _ p) r

  -- In every reachable process, the devices are as their handlers can have left them.
  pub world-reached :
      {p : Process} → Prelude.Reach (Step yo dial Arrives Forwards) begin p → DeviceReach p.world
  unfolding begin
  world-reached here = no_device
  world-reached (next r s) = Step-world _ _ s (world-reached r)
