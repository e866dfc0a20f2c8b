-- ===== src/Tests/Processes.antt =====
-- ssh/main.go, main: a process whose servers start, that a device and a client meet, and that ends.
use mini_shellhub.Prelude.{
  Reach, here, next, ◌≡◌, ◌↔◌, refl, Text, none, some, ok, codes, true, [], panic, contains,
}
use mini_shellhub.Devices.Handlers.{Reach as DeviceReach}
use mini_shellhub.Channels.Forwarding.{DialTcp}
use mini_shellhub.Channels.Forwarding.Crashing.{IsFinished}
use mini_shellhub.Process.{
  Process, Step, begin, ssh_starts, receive_http, connect_client, begin_ssh, sending,
}
use mini_shellhub.Server.Setup.{serves, start as start_ssh}
use mini_shellhub.Prelude.{lookup, text_eq}
use mini_shellhub.Devices.Handlers.{start as no_devices}
use mini_shellhub.Prelude.{get_elem?, text_key}
use mini_shellhub.Session.Types.{Context}
use mini_shellhub.Session.Seats.{occupied}
use mini_shellhub.Channels.Opening.Arriving.{logged_in}
use mini_shellhub.Process.Serving.{client_served}
use mini_shellhub.Process.Running.{Nameless}
use mini_shellhub.Process.Panics.{CanCrash, panics_iff}
use mini_shellhub.Devices.Handlers.Reconnect.{connected as device_connected}
use mini_shellhub.Tests.Fixtures.{
  conn, handshake, address, user_name, client_host, door, device_name, multiplexer, address_parses,
}

abbrev dial : DialTcp
dial none _ = panic
dial (some client) _ = ok 5

-- One user, from one address, and Anyone.
abbrev Known : Text → Text → Type 0
Known user addr = (user ≡ user_name) × (addr ≡ address)

abbrev Anyone : Text → Text → Type 0
Anyone user addr = Unit

panics_iff_example : CanCrash multiplexer dial Anyone IsFinished begin ↔ Nameless Anyone
panics_iff_example = panics_iff multiplexer dial Anyone IsFinished (λ c f. f) (λ client a h. cc)

-- The SSH server starts, a device connects, and then a client; the HTTP server returns.
abbrev started : Process
started = begin_ssh [] serves begin

abbrev with_device : Process
with_device = record started { world = device_connected device_name started.world }

abbrev with_client : Process
with_client = connect_client multiplexer user_name address (codes "id") with_device

abbrev returned : Process
returned = record with_client { http = sending (some (codes "in use")) }

abbrev ended : Process
ended = receive_http (some (codes "in use")) returned

abbrev Run : Process → Process → Type 0
Run = Reach (Step multiplexer dial Known IsFinished)

started_Run : Run begin started
unfolding begin start_ssh
started_Run = next here (ssh_starts true true [] refl refl)

client_served_example :
    (q : Process) × (c : Context) × Run started q
    × (q.exit ≡ none)
    × (lookup device_name q.world.dm.sessions ≡ some 0)
    × (get_elem? q.clients 0 ≡ some (record { context = c; accepted = true }))
    × (get_elem? c.store 0
        ≡ some
            (occupied (logged_in user_name address (codes "id") client_host door conn (1, 2)) 8 9))
unfolding begin begin_ssh no_devices contains text_eq
client_served_example =
    client_served multiplexer dial Known IsFinished started device_name (codes "root") address
      (codes "id") (codes "secret") client_host 100 handshake (1, 2) (λ client. some 9) 8 9
      started_Run refl refl refl refl refl address_parses (refl, refl) refl refl refl
