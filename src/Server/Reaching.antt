-- ===== src/Server/Reaching.antt =====
-- ssh/main.go and ssh/session together: which registered devices a client can reach. Devices are
-- registered under the header's identifier, and dialled under the dial key.
use mini_shellhub.Prelude.{
  ℕ, Text, [], ◌∷◌, ◌++◌, ◌≡◌, ◌≢◌, refl, some, true, false, ok, arith, contains, text_key,
}
use mini_shellhub.Host.{Host, new_host}
use mini_shellhub.Target.Laws.{new_target-ok_iff}
use mini_shellhub.Devices.{YamuxOpen}
use mini_shellhub.Devices.Handlers.{World, Reach}
use mini_shellhub.Devices.Handlers.Reconnect.{connected, connected-open_stream}
use mini_shellhub.Tunnel.{device_manager_tunnel}
use mini_shellhub.Session.Operations.{dial_key}
use mini_shellhub.Server.{no_banner, banner_handler}
use mini_shellhub.Server.Banners.{opened, bridged, banner-bridges}

-- A dial key always names a tenant, and a key that does is dialled as it is.
pub dial_key-contains : (id : Text) → contains (dial_key id) b':' ≡ true
unfolding dial_key contains
dial_key-contains id = ground arith

dial_key-tenant : (id : Text) → contains id b':' ≡ true → dial_key id ≡ id
unfolding dial_key
dial_key-tenant id h = ground arith

pub named : (device : Text) → contains device b':' ≡ true → device ≢ []
unfolding contains
named [] h = cc
named (c ∷ device) h = λ e. cc

dial_connected :
    (yo : YamuxOpen) (w : World) (device : Text) (stream : ℕ)
    → Reach w
    → contains device b':' ≡ true
    → yo w.next false ≡ some stream
    → (device_manager_tunnel yo (connected device w).dm).dial (dial_key device)
      ≡ ok (record { stream = stream; target = device })
unfolding device_manager_tunnel
dial_connected yo w device stream r tenant opens = ground (
  arith,
  dial_key-tenant device,
  connected-open_stream yo device w stream r (named device tenant),
)

-- In a reachable world, once a device has connected under an identifier with a tenant, and the
-- library opens a stream on its new session, a client that logs in with that identifier and a user
-- without '@', from an address that parses, sees an empty banner and is bridged to the new
-- connection.
pub tenant_device_reached :
    (yo : YamuxOpen) (w : World) (device username addr id : Text) (h : Host) (stream : ℕ)
    → Reach w
    → contains device b':' ≡ true
    → contains username b'@' ≡ false
    → new_host addr ≡ ok h
    → yo w.next false ≡ some stream
    → let tunnel = device_manager_tunnel yo (connected device w).dm in
      let user = username ++ b'@' ∷ device in
      banner_handler tunnel (opened user addr id) ≡ (
        bridged user addr id h
            (record { username = username; target_data = device })
            (record { stream = stream; target = device }),
        ok no_banner,
      )
tenant_device_reached yo w device username addr id h stream r tenant name host opens =
    banner-bridges (device_manager_tunnel yo (connected device w).dm) (username ++ b'@' ∷ device)
      addr id h (record { username = username; target_data = device })
      (record { stream = stream; target = device }) host
      ((new_target-ok_iff (username ++ b'@' ∷ device)
          (record { username = username; target_data = device })).1
        (refl, name))
      (dial_connected yo w device stream r tenant opens)
