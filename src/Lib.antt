-- ===== src/Lib.antt =====
-- mini-shellhub: an SSH server in front of devices that it reaches through connections which the
-- devices themselves have opened.
--
-- A device's agent opens a WebSocket to the server's /ssh/connection and multiplexes it (yamux).
-- The server keeps one multiplexer session for each device identifier. An SSH client logs in as
-- user@device: the banner callback makes a session, dials the device over its multiplexer and marks
-- the session evaluated; a login then runs an SSH handshake with the agent; each channel that the
-- client opens is paired with a channel on the agent, and requests and data are passed between
-- them.
--
-- Which file is about which code:
--   Target, Host: ssh/pkg/target/target.go and ssh/pkg/host/host.go (NewTarget is new_target, and
--     so on); Net: Go's net.SplitHostPort and net.JoinHostPort, which they and others call.
--   Devices: DeviceManager of ssh/main.go. Devices/Handlers: handleDeviceConnection, as a step
--     relation on a world of any number of waiting handlers. Devices/Handlers/Invariant and
--     /Reconnect: proofs. Devices/Locking: the manager's mutex, as a step relation over
--     sync.RWMutex as it documents itself; Devices/Locking/Waiting: proofs. Devices/Interleaving:
--     histories of calls, device by device; Devices/Interleaving/Quotient: the manager without the
--     order of its map, as a quotient. Devices/Handlers/Registry: the registry of live connections
--     that the events so far leave, and the refinement.
--   Copies: how io.Copy reads two streams one after the other (pipe, hose, and the agent's Exec and
--     Heredoc), as steps of a writer and a reader with buffers between them. Copies/Laws, /Ending:
--     proofs.
--   Relays: the two copies of tcpip.go and of the agent's httpProxyHandler, and when each handler
--     closes its connections. Relays/Closing: proofs.
--   Tunnel: ssh/server/tunnel.go. A tunnel is a record with the operation dial, which the device
--     manager fills.
--   Session: ssh/session. Types holds the data: a *Session is a position in the store of a client's
--     Context, since the snapshot and the handlers share what it points to, and a call is a
--     function on Context with a result that can be a value, an error or a panic. Operations:
--     NewSession, Dial, Evaluate and Auth (auth_call). Channels: seats, channels and Finish.
--     Racing: several handlers that take a seat at once. Seats, Closing, Racing/Laws: proofs.
--   Process: main of ssh/main.go, that is the two servers, the devices' handlers and the clients'
--     callbacks and channel handlers up to their loops, as steps of one process. Process/Calls,
--     /Channels, /Logins, /Worlds, /Running, /Serving, /Panics: proofs.
--   Server: the callbacks of ssh/server/server.go and ssh/server/auth. Setup: the table of channel
--     handlers and the start. Banners, Logins, Backing, Reachability (histories of callbacks)
--     Reaching (from a device's registration to a client's banner), Holding, Logins/Retry: proofs.
--   Channels/Opening, Requests, Shutdown: DefaultSessionHandler of ssh/server/channels/session.go,
--     that is its start, the bodies of its three loops, and how its goroutines end, with the
--     goroutine of pipe (ssh/server/channels/utils.go) that signals the end. Channels/Pipes: how
--     pipe closes the agent's side; Channels/Pipes/Threads: the goroutines of pipe and hose;
--     /Returning, /Delivery: proofs. Channels/Pipes/Recording: the writers of pipe's copy to the
--     client, with the recorder. Channels/Pipes/Relay: a command's output through the agent's Exec
--     and the server's pipe. Channels/Opening/Arriving: from a device's registration to an open
--     session channel; Channels/Opening/Crashing: the clients for which the handler panics
--     (proofs). Channels/Globals: the keepalives that all session channels of a client take from
--     one Go channel, with the library's buffer as a parameter; Channels/Globals/Accounting, /Idle:
--     proofs. Channels/Forwarding: tcpip.go; Channels/Forwarding/Crashing: the clients for which it
--     panics (proofs). Channels/AgentForwarding: the goroutine of DefaultSessionHandler that
--     forwards the client's agent.
--   WsConn: pkg/yamuxws/yamuxws.go, over a WebSocket connection given by its operations and laws.
--     WsConn/Deadlines: its deadlines and addresses. WsConn/Frames is a connection of lists, which
--     has these laws.
--   Agent: agent/pkg/agent. Config, Startup and Ping: agent.go and modes.go. Serving:
--     HostMode.Serve of modes.go and sshCloseHandler of agent.go. Listening: Listen and Close of
--     agent.go, with ping as a second thread. Keys: pkg/keygen/keygen.go. Main: agent/main.go.
--     Server: agent.go's sshHandler and the package server, with Server/Keepalive for its loop of
--     keepalives, Server/Setup for NewServer, Server/Sharing for what the sessions of a connection
--     share, and Server/Hangup for their commands when it is closed. Modes: modes/modes.go, the
--     mode's operations that the handler of a session calls. Host: server/modes/host, with
--     Host/Status for the exit status at the client, Host/Running for the end of a command and the
--     copy of its output, Host/Terminal for pty.go (Host/Terminal/Output: what it copies), and
--     Host/Sftp for SFTP. Routes: pkg/tunnel/tunnel.go. Proxy: agent.go's httpProxyHandler. Sftp:
--     sftp.go.
--   Prelude: lists, results, byte strings, decimal digits, maps and what a step relation reaches.
--     Tests: the theorems at concrete inputs.
--
-- Conventions. Strings are lists of bytes. A map is an association list. A seat is the bit pattern
-- of a 64-bit int, with its wrap-around. A loop over requests is a recursion over the list of the
-- requests that it receives. format_int (Prelude/Digits) is recursive on a fuel of one more than
-- its number, which is enough since a division by ten makes a positive number smaller. A Go panic
-- is the result `panic`: in these handlers nothing recovers it.
--
-- Parameters, by what they return: when a server ends, and with what; the multiplexer's Open; the
-- SSH library's handshake, Accept, OpenChannel, Dial and SendRequest; the WebSocket library; the
-- agent's HTTP client, key files, platform and random draws; a process's start and end, and whether
-- the copy of
-- its output returns, which Host/Running answers.
--
-- Not modelled: logging; copies of data that fail (but in Channels/Pipes/Recording and in Relays),
-- and a terminal's input; how the servers listen; the SFTP protocol; the generated mocks.
pub mod Agent
pub mod Channels
pub mod Copies
pub mod Devices
pub mod Host
pub mod Net
pub mod Prelude
pub mod Process
pub mod Relays
pub mod Server
pub mod Session
pub mod Target
pub mod Tests
pub mod Tunnel
pub mod WsConn
