-- ===== src/Topic.antt =====
-- The conversations of the topic server: micros/topicsrv/internal/core/convmgr.
pub mod Types
pub mod Deliver
pub mod Groups
pub mod Listing
pub mod Load
pub mod Merge
pub mod Incoming
pub mod Recent
pub mod Cells
pub mod Sent
pub mod Ids
pub mod Publish
pub mod Requests
pub mod Accepted
pub mod SelfChat
pub mod Hot
pub mod Upsert
pub mod Cleared
pub mod Places
mod Examples
mod AnswerExamples
