-- ===== src/Agent/Listening/Address.antt =====
-- agent/pkg/agent/agent.go, Listen: the address that it logs, and what ssh/pkg/target/target.go makes of it.
use mini_shellhub.Prelude.{
  Text, ◌∷◌, ◌++◌, ◌≡◌, false, ok, arith, ◌>>=◌, contains, cut-append, append_assoc,
}
use mini_shellhub.Target.{new_target, split_sshid}
use mini_shellhub.Target.Laws.{new_target-split_sshid}
use mini_shellhub.Agent.Startup.{AuthResponse, ServerInfo}
use mini_shellhub.Agent.Listening.{sshid, before_colon}

-- The address that the agent logs is the device's namespace and name, and the host of the server's SSH
-- endpoint, around an `@`. When a client logs in there as a user of the device, the server's parser
-- takes the namespace and the name apart again, where the user has no `@`, the namespace no dot, and
-- the endpoint is a host without a colon and a port.
pub sshid-split_sshid :
    (user host port : Text) (d : AuthResponse) (i : ServerInfo)
    → contains user b'@' ≡ false
    → contains d.namespace b'.' ≡ false
    → contains host b':' ≡ false
    → i.ssh_endpoint ≡ host ++ b':' ∷ port
    → let login = d.namespace ++ b'.' ∷ d.name in
      (sshid d i ≡ login ++ b'@' ∷ host)
      × ((new_target (user ++ b'@' ∷ login) >>= split_sshid) ≡ ok (d.namespace, d.name))
unfolding sshid before_colon
sshid-split_sshid user host port d i u n h e = (
  ground
      (arith, cut-append host port b':' h, append_assoc d.namespace (b'.' ∷ d.name) (b'@' ∷ host)),
  new_target-split_sshid user d.namespace d.name u n,
)
