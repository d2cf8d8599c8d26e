-- ===== src/Engine.antt =====
-- micros/enginesrv/internal/drive: the callbacks of the connections.
pub mod Traffic
pub mod Batch
mod Examples
