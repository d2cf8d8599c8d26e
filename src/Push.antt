-- ===== src/Push.antt =====
-- micros/enginesrv/internal/core/mqhandler: what comes off the queue and is pushed to the
-- connections of users.
pub mod Bodies
pub mod Handlers
pub mod Delivery
pub mod Reach
pub mod Added
mod Examples
