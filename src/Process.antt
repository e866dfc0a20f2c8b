-- ===== src/Process.antt =====
-- ssh/main.go, main: the process of the SSH server. One goroutine runs the HTTP server for the devices
-- and one the SSH server; each hands its result to main over `errs`, and main takes one. The devices'
-- handlers and the clients' callbacks and channel handlers run between these steps, and their panics
-- end the process. When a server returns, and with what, is the libraries'.
pub mod Channels
pub mod Logins
pub mod Calls
pub mod Running
pub mod Worlds
pub mod Serving
pub mod Panics
use mini_shellhub.Prelude.{
  lookup, nat_key, ◌<◌, ℕ, Text, List, [], ◌∷◌, ◌++◌, ◌≡◌, Option, none, some, Bool, true, false,
  Result, ok, err, panic, get_elem?, set,
}
use mini_shellhub.Devices.{YamuxOpen, is_closed}
use mini_shellhub.Devices.Handlers.{
  World, start as no_devices, handle_connection, connection_breaks, handler_returns,
}
use mini_shellhub.Tunnel.{Tunnel, device_manager_tunnel}
use mini_shellhub.Session.Types.{Context, SessionError, State}
use mini_shellhub.Session.Operations.{Handshake}
use mini_shellhub.Server.{
  Banner, banner_handler, password_handler, publickey_handler, local_port_forwarding,
}
use mini_shellhub.Server.Banners.{opened as context_of}
use mini_shellhub.Server.Setup.{Start, fatal, listen_failed, serves, start as start_ssh}
use mini_shellhub.Channels.Opening.{open_session_channel, open_overlapping}
use mini_shellhub.Channels.Forwarding.{ChannelData, DialTcp, direct_tcpip_handler}

-- A server's goroutine; `none` is a nil error.
pub data Thread : Type 0 where
  starting serving : Thread
  sending received : Option Text → Thread

pub data Exit : Type 0 where
  failed : Text → Exit
  closed no_key panicked raced : Exit

-- A connection of the SSH library: its context, and whether a login was accepted.
pub record Client : Type 0 where
  pub context : Context
  pub accepted : Bool

pub record Process : Type 0 where
  pub world : World
  pub clients : List Client
  pub http : Thread
  pub ssh : Thread
  pub exit : Option Exit

unfoldable pub begin : Process
begin = record { world = no_devices; clients = []; http = serving; ssh = starting; exit = none }

-- main behind `<-errs`: an error is fatal, and without one the service is closed.
unfoldable pub main_end : Option Text → Exit
main_end none = closed
main_end (some e) = failed e

-- The SSH server's goroutine up to Serve, with the error of Listen.
unfoldable pub begin_ssh : Text → Start → Process → Process
begin_ssh e fatal p = record p { exit = some no_key }
begin_ssh e listen_failed p = record p { ssh = sending (some e) }
begin_ssh e serves p = record p { ssh = serving }

unfoldable pub receive_http : Option Text → Process → Process
unfolding main_end
receive_http r p = record p { http = received r; exit = some (main_end r) }

unfoldable pub receive_ssh : Option Text → Process → Process
unfolding main_end
receive_ssh r p = record p { ssh = received r; exit = some (main_end r) }

-- A panic of a callback or a handler is not recovered.
unfoldable pub after_call : {A : Type 0} → Result SessionError A → Process → Process
after_call (ok a) p = p
after_call (err e) p = p
after_call panic p = record p { exit = some panicked }

-- The tunnel over the devices as they are now.
abbrev pub tunnel_of : YamuxOpen → Process → Tunnel
tunnel_of yo p = device_manager_tunnel yo p.world.dm

pub connected : Context × Result SessionError Banner → Process → Process
unfolding after_call
connected (c, result) p =
    after_call result
      (record p { clients = p.clients ++ record { context = c; accepted = false } ∷ [] })

-- A client connects, and sees the banner.
unfoldable pub connect_client : YamuxOpen → Text → Text → Text → Process → Process
unfolding connected
connect_client yo user addr id p =
    connected (banner_handler (tunnel_of yo p) (context_of user addr id)) p

logs_in : Result SessionError Bool → Bool
logs_in (ok b) = b
logs_in _ = false

-- A login attempt of the client `i`.
unfoldable pub login_client : ℕ → Context × Result SessionError Bool → Process → Process
unfolding after_call logs_in
login_client i (c, result) p =
    after_call result
      (record p { clients = set p.clients i (record { context = c; accepted = logs_in result }) })

-- The handler of a channel that the client `i` opens, which writes the context at once; handlers that overlap
-- are `open_overlapping` and the step `races`.
unfoldable pub serve_channel :
    {A : Type 0} → ℕ → Context × Result SessionError A → Process → Process
unfolding after_call
serve_channel i (c, result) p =
    after_call result
      (record p { clients = set p.clients i (record { context = c; accepted = true }) })

-- The client `i` is there and not disconnected, and its login was accepted or not.
abbrev pub IsAt : Process → ℕ → Context → Bool → Type 0
IsAt p i c accepted =
    (get_elem? p.clients i ≡ some (record { context = c; accepted = accepted }))
    × (c.conn_closed ≡ false)

-- `Arrives` are the users and addresses of the clients that connect, and `Forwards` the contexts in
-- which a client forwards a port.
module _ (yo : YamuxOpen) (dial : DialTcp) (Arrives : Text → Text → Type 0)
    (Forwards : Context → Type 0) where
  pub data Step (p : Process) : Process → Type 0 where
    device_connects :
        (id uid : Text) (upgrades multiplexes : Bool)
        → p.exit ≡ none
        → p.http ≡ serving
        → Step p (record p { world = (handle_connection id uid upgrades multiplexes p.world).0 })
    device_breaks :
        (s : ℕ)
        → p.exit ≡ none
        → s < p.world.next
        → Step p (record p { world = connection_breaks s p.world })
    device_returns :
        (s : ℕ) (device : Text)
        → p.exit ≡ none
        → lookup s p.world.waiting ≡ some device
        → is_closed s p.world.dm.closed ≡ true
        → Step p (record p { world = handler_returns s device p.world })
    http_returns :
        (r : Option Text)
        → p.exit ≡ none
        → p.http ≡ serving
        → Step p (record p { http = sending r })
    ssh_starts :
        (generates listens : Bool) (e : Text)
        → p.exit ≡ none
        → p.ssh ≡ starting
        → Step p (begin_ssh e (start_ssh generates listens) p)
    ssh_returns :
        (r : Option Text) → p.exit ≡ none → p.ssh ≡ serving → Step p (record p { ssh = sending r })
    receives_http :
        (r : Option Text) → p.exit ≡ none → p.http ≡ sending r → Step p (receive_http r p)
    receives_ssh : (r : Option Text) → p.exit ≡ none → p.ssh ≡ sending r → Step p (receive_ssh r p)
    connects :
        (user addr id : Text)
        → p.exit ≡ none
        → p.ssh ≡ serving
        → Arrives user addr
        → Step p (connect_client yo user addr id p)
    tries_password :
        (i : ℕ) (c : Context) (handshake : Handshake) (pwd : Text)
        → p.exit ≡ none
        → IsAt p i c false
        → Step p (login_client i (password_handler (tunnel_of yo p) handshake pwd c) p)
    tries_publickey :
        (i : ℕ) (c : Context) (handshake : Handshake)
        → p.exit ≡ none
        → IsAt p i c false
        → Step p (login_client i (publickey_handler (tunnel_of yo p) handshake c) p)
    opens_session :
        (i : ℕ) (c : Context) (accepted : Option ℕ) (opens : ℕ → Option ℕ)
        → p.exit ≡ none
        → IsAt p i c true
        → Step p (serve_channel i (open_session_channel accepted opens c) p)
    overlaps_session :
        (i seat : ℕ) (c : Context) (accepted : Option ℕ) (opens : ℕ → Option ℕ)
        → p.exit ≡ none
        → IsAt p i c true
        → Step p (serve_channel i (open_overlapping seat accepted opens c) p)
    -- Two handlers of one client, whose context has a session, write a map of it at once: the runtime may
    -- end the process ("concurrent map writes").
    races :
        (i q : ℕ) (c : Context) (state : State)
        → p.exit ≡ none
        → IsAt p i c true
        → c.snap ≡ some (record { session = some q; state = state })
        → Step p (record p { exit = some raced })
    forwards :
        (i : ℕ) (c : Context) (d : Option ChannelData) (accepted : Option ℕ)
        → p.exit ≡ none
        → IsAt p i c true
        → Forwards c
        → Step p (
            serve_channel i (direct_tcpip_handler (some local_port_forwarding) d dial accepted c) p)
