-- ===== src/Channels/AgentForwarding.antt =====
-- ssh/server/channels/session.go, the goroutine of an auth-agent-req@openssh.com request: it takes the
-- channels that the agent opens, one after the other, and joins each with one of the client's by hose.
-- What Accept and OpenChannel return comes with each channel. Deferred calls run when the goroutine
-- returns, the last first.
pub mod Laws
use mini_shellhub.Prelude.{ℕ, Text, List, [], ◌∷◌, ◌++◌, Option, none, some, codes}

pub record Offer : Type 0 where
  pub accepted : Option ℕ
  pub opened : Option ℕ

pub record Forwarder : Type 0 where
  -- The channels whose Close is deferred, the last first.
  pub deferred : List ℕ
  -- The pairs that hose has joined, in order.
  pub hosed : List (ℕ × ℕ)
  pub closed : List ℕ
  -- The message of the `reject` with which the goroutine has returned.
  pub rejected : Option Text

unfoldable pub start : Forwarder
start = record { deferred = []; hosed = []; closed = []; rejected = none }

-- `reject`, and then the deferred calls.
unfoldable pub returns : Text → Forwarder → Forwarder
returns message f = record f {
  deferred = [];
  closed = f.closed ++ f.deferred;
  rejected = some message;
}

open_channel : ℕ → Option ℕ → Forwarder → Forwarder
unfolding returns
open_channel agent none f =
    returns (codes "failed to open the auth request channel from agent to client") f
open_channel agent (some client) f = record f {
  deferred = client ∷ f.deferred;
  hosed = f.hosed ++ (agent, client) ∷ [];
}

accept_channel : Offer → Option ℕ → Forwarder → Forwarder
unfolding returns open_channel
accept_channel o none f =
    returns (codes "failed to accept the chanel request from agent on auth request") f
accept_channel o (some agent) f =
    open_channel agent o.opened (record f { deferred = agent ∷ f.deferred })

on_offer : Option Text → Offer → Forwarder → Forwarder
unfolding accept_channel
on_offer (some message) o f = f
on_offer none o f = accept_channel o o.accepted f

-- The channels that have been offered so far.
unfoldable pub forward_loop : List Offer → Forwarder → Forwarder
unfolding on_offer
forward_loop [] f = f
forward_loop (o ∷ os) f = forward_loop os (on_offer f.rejected o f)

finish : Option Text → Forwarder → Forwarder
unfolding returns
finish (some message) f = f
finish none f = returns (codes "channel for agent forwarding done") f

-- The agent's connection ends, and with it the series of its channels.
unfoldable pub offers_end : Forwarder → Forwarder
unfolding finish
offers_end f = finish f.rejected f
