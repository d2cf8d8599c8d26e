-- ===== src/Group.antt =====
-- micros/topicsrv/internal/core/grpmgr: the groups that a topic server holds in memory, and who may
-- send to one (canSendMsgInGroup of core/convmgr).
pub mod Types
pub mod Ops
pub mod Members
pub mod Permission
pub mod Removal
mod Examples
