-- ===== src/Agent.antt =====
-- agent/pkg/agent: the agent's configuration, start, ping, SSH server, sessions and tunnel.
pub mod Config
pub mod Startup
pub mod Serving
pub mod Main
pub mod Modes
pub mod Keys
pub mod Ping
pub mod Listening
pub mod Server
pub mod Host
pub mod Routes
pub mod Proxy
pub mod Sftp
