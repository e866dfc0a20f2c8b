-- ===== src/Relays.antt =====
-- Two connections between which data is copied both ways, as DefaultDirectTCPIPHandler of
-- ssh/server/channels/tcpip.go and httpProxyHandler of agent/pkg/agent/agent.go do: neither tells one
-- side that the other has ended, and each closes both connections at once.
pub mod Closing
use mini_shellhub.Prelude
use mini_shellhub.Prelude.{ℕ, List, [], ◌∷◌, ◌++◌, Text, ◌≡◌, Bool, true, false, ◌&&◌, ◌||◌, ◌⊎◌}

-- One direction: what its sender still sends, what the receiver has, whether the sender has ended its
-- side, and whether the goroutine that copies has returned.
pub record Flow : Type 0 where
  pub todo : Text
  pub delivered : Text
  pub finished : Bool
  pub returned : Bool

pub record Relay : Type 0 where
  pub to_client : Flow
  pub to_agent : Flow
  -- Both connections are closed.
  pub closed : Bool

abbrev pub sends : Text → Flow
sends bytes = record { todo = bytes; delivered = []; finished = false; returned = false }

-- A response to the client and a request to the agent.
abbrev pub begin : Text → Text → Relay
begin response request = record {
  to_client = sends response;
  to_agent = sends request;
  closed = false;
}

-- When the handler closes, by which of the copies have returned: `wg.Wait()` and then the deferred calls,
-- or `done` behind the first copy.
abbrev pub Policy : Type 0
Policy = Bool → Bool → Bool

abbrev pub after_both : Policy
after_both client agent = client && agent

abbrev pub after_first : Policy
after_first client agent = client || agent

-- `waits` is whether the client ends its side only when it sees the connection closed.
module _ (policy : Policy) (waits : Bool) where
  pub data Step (r : Relay) : Relay → Type 0 where
    brings_client :
        (b : ℕ) (rest : Text)
        → r.closed ≡ false
        → r.to_client.todo ≡ b ∷ rest
        → Step r (record r {
          to_client = record (r.to_client) {
            todo = rest;
            delivered = r.to_client.delivered ++ b ∷ [];
          };
        })
    brings_agent :
        (b : ℕ) (rest : Text)
        → r.closed ≡ false
        → r.to_agent.todo ≡ b ∷ rest
        → Step r (record r {
          to_agent = record (r.to_agent) {
            todo = rest;
            delivered = r.to_agent.delivered ++ b ∷ [];
          };
        })
    agent_finishes :
        r.to_client.todo ≡ []
        → Step r (record r { to_client = record (r.to_client) { finished = true } })
    client_finishes :
        r.to_agent.todo ≡ []
        → (waits ≡ false) ⊎ (r.closed ≡ true)
        → Step r (record r { to_agent = record (r.to_agent) { finished = true } })
    -- A side that has ended may have closed its whole connection; what is then written to it fails, and the
    -- copy returns.
    client_refuses :
        (b : ℕ) (rest : Text)
        → r.to_agent.finished ≡ true
        → r.to_client.todo ≡ b ∷ rest
        → Step r (record r { to_client = record (r.to_client) { returned = true } })
    agent_refuses :
        (b : ℕ) (rest : Text)
        → r.to_client.finished ≡ true
        → r.to_agent.todo ≡ b ∷ rest
        → Step r (record r { to_agent = record (r.to_agent) { returned = true } })
    -- A copy returns at the end of its data, or when its connections are closed.
    client_copied :
        (r.to_client.finished ≡ true) ⊎ (r.closed ≡ true)
        → Step r (record r { to_client = record (r.to_client) { returned = true } })
    agent_copied :
        (r.to_agent.finished ≡ true) ⊎ (r.closed ≡ true)
        → Step r (record r { to_agent = record (r.to_agent) { returned = true } })
    closes :
        policy r.to_client.returned r.to_agent.returned ≡ true → Step r (record r { closed = true })

abbrev pub Reach : Policy → Bool → Relay → Relay → Type 0
Reach policy waits = Prelude.Reach (Step policy waits)
