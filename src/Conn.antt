-- ===== src/Conn.antt =====
-- micros/enginesrv/internal/core/connmgr: the manager of the connections of one engine server.
pub mod Types
pub mod Wraps
pub mod Ops
pub mod Handles
pub mod Wrap
pub mod Tracked
pub mod Invariant
pub mod Steps
pub mod Lifecycle
pub mod Timeouts
pub mod Displaced
mod Examples
