-- ===== src/Process/Panics.antt =====
-- ssh/main.go, main: which clients can end the process.
use mini_shellhub.Prelude
use mini_shellhub.Prelude.{
  here, next, Reach-before, ℕ, Text, List, [], ◌∷◌, ◌++◌, ◌≡◌, ◌≢◌, ◌⊎◌, ◌↔◌, refl, sym, ◌∙◌,
  Option, none, some, Bool, true, false, Result, ok, err, panic, length, get_elem?, set,
  get_elem?-append_last, get_elem?-set_self, arith, inl, inr, Result-cases, codes,
}
use mini_shellhub.Host.{new_host}
use mini_shellhub.Target.{new_target}
use mini_shellhub.Devices.{YamuxOpen}
use mini_shellhub.Tunnel.{Tunnel}
use mini_shellhub.Session.Types.{Context, SessionError, state_nil, state_value}
use mini_shellhub.Session.Operations.{Handshake, obtain_session}
use mini_shellhub.Server.{connection_failed, banner_handler, publickey_handler}
use mini_shellhub.Server.Banners.{opened as context_of}
use mini_shellhub.Channels.Opening.{open_session_channel}
use mini_shellhub.Channels.Opening.Crashing.{NoSession-panics}
use mini_shellhub.Channels.Forwarding.{DialTcp}
use mini_shellhub.Channels.Forwarding.Crashing.{IsFinished}
use mini_shellhub.Server.Setup.{serves, start as start_ssh}
use mini_shellhub.Process.{
  begin_ssh, main_end, connected, after_call, serving, panicked, Client, Process, begin,
  connect_client, serve_channel, Step, tunnel_of, ssh_starts, connects, tries_publickey,
  opens_session,
}
use mini_shellhub.Process.Calls.{connect_client-ok, login_client-ok}
use mini_shellhub.Process.Running.{Reach-Inv, IsNameless, Nameless}

-- The banner of such a client makes no session.
nameless-banner :
    (tunnel : Tunnel) (user addr id : Text)
    → IsNameless user addr
    → let r = banner_handler tunnel (context_of user addr id) in
      (r ≡ (context_of user addr id, panic)) ⊎ (r ≡ (context_of user addr id, ok connection_failed))
unfolding banner_handler
nameless-banner tunnel user addr id bad = elim (Result-cases (new_host addr)) [
  | inr (inl (e, h)) ↦ inr (ground arith)
  | inr (inr h) ↦ inl (ground arith)
  | inl (h, ph) ↦ elim (Result-cases (new_target user)) [
    | inr (inl (e, t)) ↦ inr (ground arith)
    | inr (inr t) ↦ inl (ground arith)
    | inl (t, pt) ↦ absurd (elim bad [ inl n ↦ n h ph | inr n ↦ n t pt ])
  ]
]

-- Any public key of such a client is accepted.
abbrev keyed : Text → Text → Text → Context
keyed user addr id = record (context_of user addr id) {
  snap = some (record { session = none; state = state_nil });
}

nameless-publickey :
    (tunnel : Tunnel) (handshake : Handshake) (user addr id : Text)
    → publickey_handler tunnel handshake (context_of user addr id) ≡ (keyed user addr id, ok true)
unfolding publickey_handler obtain_session state_value
nameless-publickey tunnel handshake user addr id = refl

serve_channel-panics :
    {A : Type 0} (i : ℕ) (r : Context × Result SessionError A) (p : Process)
    → r.1 ≡ panic
    → (serve_channel i r p).exit ≡ some panicked
unfolding serve_channel
serve_channel-panics i (c, result) p h = rw h refl

module _ (yo : YamuxOpen) (dial : DialTcp) (Arrives : Text → Text → Type 0)
    (Forwards : Context → Type 0) where
  abbrev pub CanCrash : Process → Type 0
  CanCrash p =
      (q : Process) × Prelude.Reach (Step yo dial Arrives Forwards) p q × (q.exit ≡ some panicked)

  -- It then opens a session channel, which panics.
  keyed_ends :
      (user addr id : Text) (p : Process) (i : ℕ)
      → p.exit ≡ none
      → get_elem? p.clients i
        ≡ some (record { context = context_of user addr id; accepted = false })
      → CanCrash p
  keyed_ends user addr id p i e at =
      let handshake : Handshake = λ conn cfg. none in
      let q : Process = record p {
        clients = set p.clients i (record { context = keyed user addr id; accepted = true });
      } in
      let found =
        get_elem?-set_self p.clients i (record { context = keyed user addr id; accepted = true }) _
          at in
      let opening = open_session_channel none (λ client. none) (keyed user addr id) in
      (
        serve_channel i opening q,
        next
            (next here (
              rw
                (sym (
                  login_client-ok i _ p _ true
                    (nameless-publickey (tunnel_of yo p) handshake user addr id)))
                (tries_publickey i (context_of user addr id) handshake e (at, refl))))
            (opens_session i (keyed user addr id) none (λ client. none) e (found, refl)),
        serve_channel-panics i opening q
            (NoSession-panics none (λ client. none) (keyed user addr id) (inr refl)),
      )

  -- While the process runs and serves SSH, a client that connects from an address that does not parse, or
  -- with a user that names no target, can end it, without a password.
  pub stranger_ends :
      (user addr id : Text) (p : Process)
      → p.exit ≡ none
      → p.ssh ≡ serving
      → Arrives user addr
      → IsNameless user addr
      → CanCrash p
  unfolding connect_client connected after_call
  stranger_ends user addr id p e s a bad =
      elim (nameless-banner (tunnel_of yo p) user addr id bad) [
        | inl b ↦
            (connect_client yo user addr id p, next here (connects user addr id e s a), rw b refl)
        | inr b ↦
            let k : Client = record { context = context_of user addr id; accepted = false } in
            let q : Process = record p { clients = p.clients ++ k ∷ [] } in
            let (q', r, x) =
              keyed_ends user addr id q (length p.clients) e (get_elem?-append_last p.clients k) in
            (
              q',
              Reach-before
                  (rw (sym (connect_client-ok yo user addr id p _ connection_failed b))
                    (connects user addr id e s a))
                  r,
              x,
            )
      ]

  -- Where ports are forwarded only in contexts whose session is finished, and the SSH library's Dial
  -- panics on no client but nil, a process that begins can come to end by a panic exactly if a client may
  -- connect from an address that does not parse or with a user that names no target, whatever the devices,
  -- the other clients and the two servers do.
  pub panics_iff :
      ((c : Context) → Forwards c → IsFinished c)
      → ((client : ℕ) (address : Text) → dial (some client) address ≢ panic)
      → CanCrash begin ↔ Nameless Arrives
  unfolding begin begin_ssh start_ssh main_end
  panics_iff finished client_dial = (
    λ (p, r, e). elim (Reach-Inv yo dial Arrives Forwards finished client_dial r) [
      | inl v ↦ absurd (ground (arith, v.cause, e))
      | inr bad ↦ bad
    ],
    λ (user, addr, a, bad).
        let (q, r, e) = stranger_ends user addr [] (begin_ssh [] serves begin) refl refl a bad in
        (q, Reach-before (ssh_starts true true [] refl refl) r, e),
  )
