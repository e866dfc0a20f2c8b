-- ===== src/Session.antt =====
-- ssh/session: the session that bridges a client and an agent, its snapshot in the client's context,
-- and its operations, which the child modules hold.
pub mod Types
pub mod Operations
pub mod Channels
pub mod Seats
pub mod Racing
pub mod Closing
