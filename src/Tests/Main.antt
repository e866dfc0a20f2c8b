-- ===== src/Tests/Main.antt =====
-- agent/main.go: a device that registers itself.
use mini_shellhub.Prelude.{[], ◌∷◌, ◌≡◌, refl, true, some, codes, lookup, insert, text_key, text_eq}
use mini_shellhub.Devices.{add_device}
use mini_shellhub.Devices.Handlers.{start, handle_connection}
use mini_shellhub.Agent.Main.{Flags, Network, finished, main}

abbrev flags : Flags
flags = record {
  server_url = codes "http://hub";
  device_id = codes "door";
  priv_key = [];
  single_user_pass = [];
}

abbrev network : Network
network = record { dials = λ request. true; multiplexes = true; streams = 3 ∷ 5 ∷ [] }

main_finishes : (main flags network).exit ≡ finished
unfolding main text_eq
main_finishes = refl

-- What the server registers for the request that main has sent.
registers :
    lookup (codes "door") (handle_connection (codes "door") [] true true start).0.dm.sessions
    ≡ some 0
unfolding start handle_connection lookup insert text_eq add_device
registers = refl
