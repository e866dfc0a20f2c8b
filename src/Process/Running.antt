-- ===== src/Process/Running.antt =====
-- ssh/main.go, main: why the process ends.
use mini_shellhub.Prelude
use mini_shellhub.Prelude.{
  next, ℕ, Text, List, [], ◌∷◌, ◌++◌, ◌≡◌, ◌≢◌, ◌⊎◌, refl, Option, none, some, Bool, true, false,
  Result, ok, err, panic, get_elem?, set, arith, inl, inr, All, All-append_last, All-get_elem?,
  All-set, here, Result-cases,
}
use mini_shellhub.Host.{Host, new_host}
use mini_shellhub.Target.{Target, new_target}
use mini_shellhub.Devices.{YamuxOpen}
use mini_shellhub.Devices.Handlers.{
  connects as connects_device, breaks, returns, Reach as DeviceReach, here as no_device,
  next as then_device,
}
use mini_shellhub.Session.Types.{Context}
use mini_shellhub.Server.{
  banner_handler, password_handler, publickey_handler, local_port_forwarding,
}
use mini_shellhub.Server.Banners.{opened as context_of}
use mini_shellhub.Server.Setup.{start as start_ssh}
use mini_shellhub.Server.Holding.{HasSession, step-HasSession, banner-HasSession}
use mini_shellhub.Server.Reachability.{password, publickey, context_step}
use mini_shellhub.Channels.Opening.{open_session_channel, open_overlapping}
use mini_shellhub.Channels.Opening.Crashing.{HasSession-not_panic, HasSession-overlapping}
use mini_shellhub.Channels.Forwarding.{DialTcp, direct_tcpip_handler}
use mini_shellhub.Channels.Forwarding.Crashing.{IsFinished}
use mini_shellhub.Process.{
  IsAt, Process, begin, receive_http, receive_ssh, tunnel_of, connect_client, Step, device_connects,
  device_breaks, device_returns, http_returns, ssh_starts, ssh_returns, receives_http, receives_ssh,
  connects, tries_password, tries_publickey, opens_session, overlaps_session, races, forwards,
}
use mini_shellhub.Process.Channels.{
  opening-HasSession, overlapping-HasSession, forward-HasSession, forward-not_panic,
}
use mini_shellhub.Process.Logins.{device_dial-not_panic, login-not_panic, banner-not_panic}
use mini_shellhub.Process.Calls.{Inv, login-Inv, channel-Inv, connected-Inv, begin_ssh-Inv}

-- An address does not parse or a user names no target.
abbrev pub IsNameless : Text → Text → Type 0
IsNameless user addr = ((h : Host) → new_host addr ≢ ok h) ⊎ ((t : Target) → new_target user ≢ ok t)

-- A client connects for which this is so.
abbrev pub Nameless : (Text → Text → Type 0) → Type 0
Nameless Arrives = (user : Text) × (addr : Text) × Arrives user addr × IsNameless user addr

names_target :
    (user addr : Text)
    → ((h : Host) × (t : Target) × (new_host addr ≡ ok h) × (new_target user ≡ ok t))
      ⊎ IsNameless user addr
names_target user addr = elim (Result-cases (new_host addr)) [
  | inr bad ↦ inr (inl (λ h e. ground (arith, bad)))
  | inl (h, ph) ↦ elim (Result-cases (new_target user)) [
    | inr bad ↦ inr (inr (λ t e. ground (arith, bad)))
    | inl (t, pt) ↦ inl (h, t, ph, pt)
  ]
]

module _ (yo : YamuxOpen) (dial : DialTcp) (Arrives : Text → Text → Type 0)
    (Forwards : Context → Type 0) (finished : (c : Context) → Forwards c → IsFinished c)
    (client_dial : (client : ℕ) (address : Text) → dial (some client) address ≢ panic) where
  -- A client's context holds a session.
  held_at : (p : Process) (i : ℕ) (c : Context) (b : Bool) → Inv p → IsAt p i c b → HasSession c
  held_at p i c b v (e, open') =
      All-get_elem? (λ k. HasSession k.context) p.clients i _ e v.sessions_held

  Step-Inv : (p q : Process) → Step yo dial Arrives Forwards p q → Inv p → Inv q ⊎ Nameless Arrives
  unfolding connect_client receive_http receive_ssh context_step
  Step-Inv p q (device_connects id uid upgrades multiplexes e h) v = inl (record {
    world_reached = then_device v.world_reached (connects_device id uid upgrades multiplexes);
    sessions_held = v.sessions_held;
    cause = inl e;
  })
  Step-Inv p q (device_breaks s e k) v = inl (record {
    world_reached = then_device v.world_reached (breaks s k);
    sessions_held = v.sessions_held;
    cause = inl e;
  })
  Step-Inv p q (device_returns s device e w c) v = inl (record {
    world_reached = then_device v.world_reached (returns s device w c);
    sessions_held = v.sessions_held;
    cause = inl e;
  })
  Step-Inv p q (http_returns r e s) v =
      inl
        (record { world_reached = v.world_reached; sessions_held = v.sessions_held; cause = inl e })
  Step-Inv p q (ssh_starts generates listens x e s) v =
      inl (begin_ssh-Inv x (start_ssh generates listens) p e v)
  Step-Inv p q (ssh_returns r e s) v =
      inl
        (record { world_reached = v.world_reached; sessions_held = v.sessions_held; cause = inl e })
  Step-Inv p q (receives_http r e s) v = inl (record {
    world_reached = v.world_reached;
    sessions_held = v.sessions_held;
    cause = inr (inr (inr (r, refl, inl refl)));
  })
  Step-Inv p q (receives_ssh r e s) v = inl (record {
    world_reached = v.world_reached;
    sessions_held = v.sessions_held;
    cause = inr (inr (inr (r, refl, inr refl)));
  })
  Step-Inv p q (connects user addr id e s a) v = elim (names_target user addr) [
    | inl (h, t, ph, pt) ↦ inl (
        connected-Inv (banner_handler (tunnel_of yo p) (context_of user addr id)) p e
          (banner-HasSession (tunnel_of yo p) user addr id h t ph pt)
          (banner-not_panic (tunnel_of yo p) (device_dial-not_panic yo p.world.dm) user addr id h t
            ph pt)
          v)
    | inr bad ↦ inr (user, addr, a, bad)
  ]
  Step-Inv p q (tries_password i c handshake pwd e at) v =
      let held = held_at p i c false v at in
      inl (
        login-Inv i (password_handler (tunnel_of yo p) handshake pwd c) p e
          (step-HasSession c (password (tunnel_of yo p) handshake pwd) held)
          (login-not_panic (tunnel_of yo p) (device_dial-not_panic yo p.world.dm) handshake pwd c
            held).0
          v)
  Step-Inv p q (tries_publickey i c handshake e at) v =
      let held = held_at p i c false v at in
      inl (
        login-Inv i (publickey_handler (tunnel_of yo p) handshake c) p e
          (step-HasSession c (publickey (tunnel_of yo p) handshake) held)
          (login-not_panic (tunnel_of yo p) (device_dial-not_panic yo p.world.dm) handshake [] c
            held).1
          v)
  Step-Inv p q (opens_session i c accepted opens e at) v =
      let held = held_at p i c true v at in
      inl (
        channel-Inv i (open_session_channel accepted opens c) p e
          (opening-HasSession accepted opens c held) (HasSession-not_panic accepted opens c held) v)
  Step-Inv p q (overlaps_session i seat c accepted opens e at) v =
      let held = held_at p i c true v at in
      inl (
        channel-Inv i (open_overlapping seat accepted opens c) p e
          (overlapping-HasSession seat accepted opens c held)
          (HasSession-overlapping accepted opens c seat held) v)
  Step-Inv p q (races i n c state e at h) v = inl (record {
    world_reached = v.world_reached;
    sessions_held = v.sessions_held;
    cause = inr (inr (inl refl));
  })
  Step-Inv p q (forwards i c d accepted e at f) v =
      let held = held_at p i c true v at in
      inl (
        channel-Inv i (direct_tcpip_handler (some local_port_forwarding) d dial accepted c) p e
          (forward-HasSession d dial accepted c held)
          (forward-not_panic d dial accepted c client_dial held (finished c f)) v)

  pub Reach-Inv :
      {p : Process}
      → Prelude.Reach (Step yo dial Arrives Forwards) begin p
      → Inv p ⊎ Nameless Arrives
  unfolding begin
  Reach-Inv here = inl (record { world_reached = no_device; sessions_held = tt; cause = inl refl })
  Reach-Inv (next r s) = elim (Reach-Inv r) [ inl v ↦ Step-Inv _ _ s v | inr bad ↦ inr bad ]
