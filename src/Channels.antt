-- ===== src/Channels.antt =====
-- ssh/server/channels: what the SSH server does with the channels that a client opens.
pub mod Opening
pub mod Requests
pub mod Shutdown
pub mod Forwarding
pub mod AgentForwarding
pub mod Globals
pub mod Pipes
