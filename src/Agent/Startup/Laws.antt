-- ===== src/Agent/Startup/Laws.antt =====
-- agent/pkg/agent/agent.go: what Initialize ensures, and what GetInfo remembers.
use mini_shellhub.Prelude.{
  [], ◌≡◌, ◌≢◌, refl, true, false, none, some, ok, err, panic, text_eq, text_eq_iff, Bool-cases,
  inl, inr, codes, arith,
}
use mini_shellhub.Agent.Startup.{
  Agent, Outside, no_identity_and_hostname, ServerInfo, initialize, get_info,
}

-- An agent that was initialized has its client, an identity that is not empty, its device's info, a
-- public key, the server's info and its authorization, is not closed, and keeps its configuration.
pub initialize-ok :
    (o : Outside) (a b : Agent)
    → initialize o a ≡ (b, ok tt)
    → (b.has_client ≡ true)
      × (b.identity ≢ none)
      × (b.identity ≢ some [])
      × (b.info ≢ none)
      × (b.pub_key ≡ o.read_key a.config.private_key)
      × (b.pub_key ≢ none)
      × (b.server_info ≡ o.get_info)
      × (b.server_info ≢ none)
      × (b.auth_data ≢ none)
      × (b.closed ≡ false)
      × (b.config ≡ a.config)
unfolding initialize
initialize-ok o a b h = ground (arith, text_eq_iff a.config.preferred_identity [])

mac_named : text_eq (codes "00:00:00:00:00:00") [] ≡ false
unfolding text_eq
mac_named = refl

-- Initialize neither panics nor fails for want of a host name and an identity: there is always one.
pub initialize-identified :
    (o : Outside) (a : Agent)
    → ((initialize o a).1 ≢ err no_identity_and_hostname) × ((initialize o a).1 ≢ panic)
unfolding initialize
initialize-identified o a = elim (Bool-cases (text_eq a.config.preferred_identity [])) [
  | inl e ↦ (λ h. ground (arith, mac_named), λ h. ground (arith, mac_named))
  | inr e ↦ (λ h. ground arith, λ h. ground arith)
]

-- A GetInfo that succeeds is remembered: whatever the server says later, the next one returns the
-- same and asks nothing.
pub get_info-remembers :
    (o later : Outside) (a : Agent) (i : ServerInfo)
    → (get_info o a).1 ≡ some i
    → get_info later (get_info o a).0 ≡ ((get_info o a).0, some i)
unfolding get_info
get_info-remembers o later a i h = ground arith
