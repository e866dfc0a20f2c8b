-- ===== src/Agent/Server/Hangup.antt =====
-- agent/pkg/agent/server/server.go and modes/host/sessioner.go: the commands of the shells that one
-- connection has opened, when it is closed. They are stored under the identifier of the connection.
use mini_shellhub.Prelude.{
  ℕ, Text, List, [], ◌∷◌, ◌++◌, ◌≡◌, refl, ◌||◌, ◌==◌, some, arith, lookup, lookup-insert, text_key,
  text_eq_iff,
}
use mini_shellhub.Devices.{is_closed}
use mini_shellhub.Agent.Server.{Server, register_cmd, close_conn}

-- The server after the shells with these commands.
abbrev pub registered : Text → List ℕ → Server → Server
registered id [] v = v
registered id (cmd ∷ cmds) v = registered id cmds (register_cmd id cmd v)

module _ (id : Text) where
  registered-killed : (cmds : List ℕ) (v : Server) → (registered id cmds v).killed ≡ v.killed
  unfolding register_cmd
  registered-killed [] v = refl
  registered-killed (cmd ∷ cmds) v = registered-killed cmds (register_cmd id cmd v)

  registered-last :
      (cmds : List ℕ) (last : ℕ) (v : Server)
      → lookup id (registered id (cmds ++ last ∷ []) v).cmds ≡ some last
  unfolding register_cmd
  registered-last [] last v = ground (arith, lookup-insert id id last v.cmds, text_eq_iff id id)
  registered-last (cmd ∷ cmds) last v = registered-last cmds last (register_cmd id cmd v)

-- However many shells a connection has opened, when it is closed only the command of the last one is
-- killed, and those that were killed before.
pub hangup_kills_last :
    (id : Text) (cmds : List ℕ) (last cmd conn : ℕ) (v : Server)
    → is_closed cmd (close_conn (some id) conn (registered id (cmds ++ last ∷ []) v)).killed
      ≡ (last == cmd || is_closed cmd v.killed)
unfolding close_conn is_closed
hangup_kills_last id cmds last cmd conn v =
    ground (arith, registered-last id cmds last v, registered-killed id (cmds ++ last ∷ []) v)
