-- ===== src/Server/Backing.antt =====
-- ssh/server and ssh/session: a context whose snapshot is backed by a session as far as its state says,
-- and that Auth keeps it so.
use mini_shellhub.Prelude.{
  ℕ, Text, List, ◌≡◌, ◌≢◌, ◌⊎◌, refl, Option, none, some, ok, get_elem?, set, get_elem?-set_self,
  Option-cases, Result-cases, inl, inr,
}
use mini_shellhub.Tunnel.{Tunnel, StreamConn}
use mini_shellhub.Session.Types.{
  Context, Session, Snapshot, State, state_nil, state_created, state_evaluated, state_finished,
}
use mini_shellhub.Session.Operations.{
  set_conn, set_client, dial_key, Handshake, auth_password, auth_call,
}
use mini_shellhub.Server.Logins.{
  Holds, auth-dial_panics, offer, auth-reuses, auth-drops, auth-no_dial, auth-redials,
  auth-redial_drops,
}

-- A session in this state is there, and is as far as the state says.
abbrev pub Backed : State → Option Session → Type 0
Backed state none = ⊥
Backed state_created (some s) = s.agent.client ≡ none
Backed state_evaluated (some s) = s.agent.client ≡ none
Backed state_finished (some s) = s.agent.client ≢ none
Backed _ (some s) = ⊥

abbrev pub SnapInv : Option Snapshot → List Session → Type 0
SnapInv none store = Unit {0}
SnapInv (some snap) store = elim snap.session [
  | none ↦ snap.state ≡ state_nil
  | some p ↦ Backed snap.state (get_elem? store p)
]

abbrev pub Inv : Context → Type 0
Inv c = SnapInv c.snap c.store

-- The session at `p` is evaluated and has no SSH client of the agent, or it is finished and has one.
abbrev pub Bridged : Context → ℕ → Type 0
Bridged c p =
    ((s : Session) × Holds c p s state_evaluated × (s.agent.client ≡ none))
    ⊎ ((s : Session) × Holds c p s state_finished × (s.agent.client ≢ none))

Bridged-Inv : (c : Context) (p : ℕ) → Bridged c p → Inv c
Bridged-Inv c p (inl (s, v, n)) = rw v.snapped (rw v.stored n)
Bridged-Inv c p (inr (s, v, h)) = rw v.snapped (rw v.stored h)

module _ (c : Context) (p : ℕ) (s : Session) (v : Holds c p s state_evaluated) where
  drop-Bridged :
      (s' : Session) → s'.agent.client ≡ none → Bridged (record c { store = set c.store p s' }) p
  drop-Bridged s' n =
      inl
        (s', record { snapped = v.snapped; stored = get_elem?-set_self c.store p s' s v.stored }, n)

  finish-Bridged :
      (s' : Session) (store : List Session)
      → get_elem? store p ≡ some s'
      → s'.agent.client ≢ none
      → Bridged
          (record c {
            snap = some (record { session = some p; state = state_finished });
            store = store;
          })
          p
  finish-Bridged s' store e h = inr (s', record { snapped = refl; stored = e }, h)

module _ (tunnel : Tunnel) (handshake : Handshake) (pwd : Text) (c : Context) (p : ℕ) (s : Session)
    (v : Holds c p s state_evaluated) (n : s.agent.client ≡ none) where
  auth_connected-Bridged :
      (conn : StreamConn)
      → s.agent.conn ≡ some conn
      → Bridged (auth_call tunnel handshake (auth_password pwd) c).0 p
  unfolding set_client set_conn
  auth_connected-Bridged conn e = elim (Option-cases (handshake conn (offer s pwd))) [
    | inl k ↦
        rw (auth-drops tunnel handshake pwd c p s v conn e k)
          (drop-Bridged c p s v (set_conn none s) n)
    | inr (link, k) ↦ rw (auth-reuses tunnel handshake pwd c p s v conn link e k) (
        finish-Bridged c p s v (set_client link s) (set c.store p (set_client link s))
          (get_elem?-set_self c.store p (set_client link s) s v.stored) (λ h. cc))
  ]

  auth_dialled-Bridged :
      (conn : StreamConn)
      → s.agent.conn ≡ none
      → tunnel.dial (dial_key s.info.device.uid) ≡ ok conn
      → Bridged (auth_call tunnel handshake (auth_password pwd) c).0 p
  unfolding set_client set_conn
  auth_dialled-Bridged conn e d = elim (Option-cases (handshake conn (offer s pwd))) [
    | inl k ↦
        rw (auth-redial_drops tunnel handshake pwd c p s v conn e d k)
          (inl (_, record { snapped = v.snapped; stored = get_elem?-set_self _ p _ s1 e1 }, n))
    | inr (link, k) ↦
        rw (auth-redials tunnel handshake pwd c p s v conn link e d k)
          (finish-Bridged c p s v (set_client link s1) _ (get_elem?-set_self _ p _ s1 e1) (λ h. cc))
  ]
    where
      s1 : Session
      s1 = set_conn (some conn) s

      e1 : get_elem? (set c.store p s1) p ≡ some s1
      e1 = get_elem?-set_self c.store p s1 s v.stored

  pub auth_call-Bridged : Bridged (auth_call tunnel handshake (auth_password pwd) c).0 p
  auth_call-Bridged = elim (Option-cases s.agent.conn) [
    | inr (conn, e) ↦ auth_connected-Bridged conn e
    | inl e ↦ elim (Result-cases (tunnel.dial (dial_key s.info.device.uid))) [
      | inl (conn, d) ↦ auth_dialled-Bridged conn e d
      | inr (inl (x, d)) ↦ rw (auth-no_dial tunnel handshake pwd c p s v x e d) (inl (s, v, n))
      | inr (inr d) ↦ rw (auth-dial_panics tunnel handshake pwd c p s v e d) (inl (s, v, n))
    ]
  ]

  pub auth_call-Inv : Inv (auth_call tunnel handshake (auth_password pwd) c).0
  auth_call-Inv =
      Bridged-Inv (auth_call tunnel handshake (auth_password pwd) c).0 p auth_call-Bridged
