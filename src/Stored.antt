-- ===== src/Stored.antt =====
-- micros/msgsrv: what the message server does with a message of the queue.
pub mod Receive
pub mod Outcome
pub mod Attempts
mod Examples
