-- ===== src/Handler.antt =====
-- micros/enginesrv/internal/core/frhandler: what the engine server does with the frames of a
-- client.
pub mod Types
pub mod Tasks
pub mod Frames
pub mod Acks
pub mod Written
pub mod Answers
pub mod Groups
pub mod Guard
pub mod Recorded
pub mod Pings
mod Examples
