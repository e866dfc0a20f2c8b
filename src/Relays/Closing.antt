-- ===== src/Relays/Closing.antt =====
-- ssh/server/channels/tcpip.go and agent/pkg/agent/agent.go: whether a relayed connection can be
-- closed, and what closing it can lose.
use mini_shellhub.Prelude.{
  ◌≢◌, inr, ℕ, Reach-preserves, here, next, [], ◌∷◌, ◌++◌, Text, ◌≡◌, ◌↔◌, refl, sym, ◌∙◌, Bool,
  true, false, ◌⊎◌, inl, arith, append_assoc, append-nil,
}
use mini_shellhub.Relays.{
  Relay, begin, Policy, after_both, after_first, Step, brings_client, brings_agent, agent_finishes,
  client_finishes, client_refuses, agent_refuses, client_copied, agent_copied, closes, Reach,
}

-- A client that waits for the end does not end its side before the connections are closed.
abbrev Waits : Relay → Type 0
Waits r = (r.closed ≡ true) ⊎ (r.to_agent.finished ≡ false)

Step-Waits : {policy : Policy} {r s : Relay} → Step policy true r s → Waits r → Waits s
Step-Waits {policy} {r} (brings_client b rest c t) v = ground arith
Step-Waits {policy} {r} (brings_agent b rest c t) v = ground arith
Step-Waits {policy} {r} (agent_finishes t) v = ground arith
Step-Waits {policy} {r} (client_finishes t w) v = ground arith
Step-Waits {policy} {r} (client_refuses b rest h t) v = ground arith
Step-Waits {policy} {r} (agent_refuses b rest h t) v = ground arith
Step-Waits {policy} {r} (client_copied h) v = ground arith
Step-Waits {policy} {r} (agent_copied h) v = ground arith
Step-Waits {policy} {r} (closes h) v = ground arith

-- Once such a client has nothing more to send, its direction does not end, nor does the handler.
record IsOpen (r : Relay) : Type 0 where
  unfinished : r.to_agent.finished ≡ false
  sent : r.to_agent.todo ≡ []
  copying : r.to_agent.returned ≡ false
  unclosed : r.closed ≡ false

Step-IsOpen : {r s : Relay} → Step after_both true r s → IsOpen r → IsOpen s
Step-IsOpen {r} (brings_client b rest c t) v = ground arith
Step-IsOpen {r} (brings_agent b rest c t) v = absurd (ground (arith, v.sent, t))
Step-IsOpen {r} (agent_finishes t) v = ground arith
Step-IsOpen {r} (client_finishes t w) v = ground arith
Step-IsOpen {r} (client_refuses b rest h t) v = absurd (ground (arith, v.unfinished, h))
Step-IsOpen {r} (agent_refuses b rest h t) v = absurd (ground (arith, v.sent, t))
Step-IsOpen {r} (client_copied h) v = ground arith
Step-IsOpen {r} (agent_copied h) v = ground arith
Step-IsOpen {r} (closes h) v = ground arith

module _ {policy : Policy} {waits : Bool} {start : Relay} where
  -- All that one side still sends can be brought to the other.
  client_brought :
      (bytes : Text) (r : Relay)
      → r.closed ≡ false
      → r.to_client.todo ≡ bytes
      → Reach policy waits start r
      → (q : Relay) × Reach policy waits start q
        × (q.to_client.todo ≡ [])
        × (q.to_agent ≡ r.to_agent)
        × (q.closed ≡ false)
  client_brought [] r c t h = (r, h, t, refl, c)
  client_brought (b ∷ bytes) r c t h =
      client_brought bytes _ c refl (next h (brings_client b bytes c t))

  agent_brought :
      (bytes : Text) (r : Relay)
      → r.closed ≡ false
      → r.to_agent.todo ≡ bytes
      → Reach policy waits start r
      → (q : Relay) × Reach policy waits start q
        × (q.to_agent.todo ≡ [])
        × (q.to_agent.delivered ≡ r.to_agent.delivered ++ bytes)
        × (q.to_client ≡ r.to_client)
        × (q.closed ≡ false)
  agent_brought [] r c t h = (r, h, t, sym (append-nil r.to_agent.delivered), refl, c)
  agent_brought (b ∷ bytes) r c t h =
      let (q, k, todo, d, same, open') =
        agent_brought bytes _ c refl (next h (brings_agent b bytes c t)) in
      (q, k, todo, d ∙ append_assoc r.to_agent.delivered (b ∷ []) bytes, same, open')

-- A relay can come to be closed.
abbrev pub CanClose : Policy → Bool → Relay → Type 0
CanClose policy waits r = (q : Relay) × Reach policy waits r q × (q.closed ≡ true)

-- Where the client does not wait, a handler that waits for both copies can close.
unwaiting_closes : (r : Relay) → r.closed ≡ false → CanClose after_both false r
unwaiting_closes r c =
    let (q, h, t, same, c') = client_brought _ r c refl here in
    let (p, k, u, d, same', c'') = agent_brought (q.to_agent.todo) q c' refl h in
    let all =
      next
        (next (next (next k (agent_finishes (ground (arith)))) (client_copied (inl refl)))
          (client_finishes u (inl refl)))
        (agent_copied (inl refl)) in
    (_, next all (closes refl), refl)

-- Where the client still sends, what it sends can be refused once the agent has ended.
sending_closes :
    (waits : Bool) (r : Relay) (b : ℕ) (rest : Text)
    → r.closed ≡ false
    → r.to_agent.todo ≡ b ∷ rest
    → CanClose after_both waits r
sending_closes waits r b rest c t =
    let (q, h, u, same, c') = client_brought _ r c refl here in
    let all =
      next (next (next h (agent_finishes u)) (client_copied (inl refl)))
        (agent_refuses b rest refl (rw same t)) in
    (_, next all (closes refl), refl)

sent_stays :
    (response request : Text) (r : Relay)
    → Reach after_both true (begin response request) r
    → r.closed ≡ false
    → r.to_agent.returned ≡ false
    → r.to_agent.todo ≡ []
    → ¬ CanClose after_both true r
sent_stays response request r run c k t (q, h, shut) =
    let waits = Reach-preserves (λ u v. Step-Waits) run (inr refl) in
    let open' =
      Reach-preserves (λ u v. Step-IsOpen) h
        (record { unfinished = ground (arith, waits); sent = t; copying = k; unclosed = c }) in
    ground (arith, open', shut)

-- From wherever a port that is forwarded (DefaultDirectTCPIPHandler waits for both copies) is not closed and
-- the copy to the agent has not returned, it can come to be closed exactly if the client ends its side by
-- itself or still has a byte to send, which an agent that is gone refuses: a client that has sent all and
-- waits for the end of the connection never sees it, although the agent's side has ended.
pub after_both-closes_iff :
    (waits : Bool) (response request : Text) (r : Relay)
    → Reach after_both waits (begin response request) r
    → r.closed ≡ false
    → r.to_agent.returned ≡ false
    → CanClose after_both waits r ↔ ((waits ≡ false) ⊎ (r.to_agent.todo ≢ []))
after_both-closes_iff false response request r run c k = (λ h. inl refl, λ h. unwaiting_closes r c)
after_both-closes_iff true response request r run c k = (
  λ h. inr (λ t. sent_stays response request r run c k t h),
  λ h. elim h [ inl e ↦ absurd (cc) | inr some_left ↦ todo_closes r.to_agent.todo refl some_left ],
)
  where
    todo_closes :
        (todo : Text) → r.to_agent.todo ≡ todo → r.to_agent.todo ≢ [] → CanClose after_both true r
    todo_closes [] e left = absurd (left e)
    todo_closes (b ∷ rest) e left = sending_closes true r b rest c e

-- A proxied connection (httpProxyHandler closes behind its first copy) can be closed when its request has
-- been brought and the client has ended its own side, and nothing of the response has.
pub after_first-loses :
    (response request : Text)
    → (r : Relay) × Reach after_first false (begin response request) r
      × (r.closed ≡ true)
      × (r.to_agent.delivered ≡ request)
      × (r.to_client.delivered ≡ [])
      × (r.to_client.todo ≡ response)
after_first-loses response request =
    let (q, h, t, d, same, c) = agent_brought request (begin response request) refl refl here in
    let copied = next (next h (client_finishes t (inl refl))) (agent_copied (inl refl)) in
    (_, next copied (closes (ground arith)), refl, d, ground (arith, same), ground (arith, same))
