-- ===== src/Tests.antt =====
-- The theorems of each part of the program, applied to concrete inputs.
pub mod Fixtures
pub mod Devices
pub mod Logins
pub mod Channels
pub mod Agent
pub mod Listening
pub mod WsConn
pub mod Forwarding
pub mod Hosts
pub mod Proxy
pub mod Sharing
pub mod Copies
pub mod Keys
pub mod Agents
pub mod Main
pub mod Terminals
pub mod Processes
