-- ===== src/Server/Setup.antt =====
-- ssh/server/server.go, NewServer and ListenAndServe: the handlers that the SSH server gives its library,
-- and how it starts. Key generation and the listener are the libraries'.
use mini_shellhub.Prelude.{
  Text, [], ◌∷◌, Bool, codes, Dict, Option, lookup, text_key, if◌then◌else◌,
}

pub data ChannelHandler : Type 0 where
  session_channel direct_tcpip_channel : ChannelHandler

unfoldable pub channel_handlers : Dict Text ChannelHandler
channel_handlers =
    (codes "session", session_channel) ∷ (codes "direct-tcpip", direct_tcpip_channel) ∷ []

-- The handler of a channel by its type; the library refuses a type that has none.
unfoldable pub handler_of : Text → Option ChannelHandler
unfolding channel_handlers
handler_of kind = lookup kind channel_handlers

pub data Start : Type 0 where
  fatal listen_failed serves : Start

-- NewServer, which ends the process where no key can be made, and then ListenAndServe.
unfoldable pub start : Bool → Bool → Start
start generates listens = if generates then (if listens then serves else listen_failed) else fatal
