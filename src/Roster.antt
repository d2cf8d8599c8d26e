-- ===== src/Roster.antt =====
-- The members of a group in the database and in memory: the repository grouprepo of the topic
-- server, and the HTTP handlers that change both.
pub mod Tables
pub mod Hints
pub mod Requests
pub mod Rows
pub mod Inserts
pub mod Agree
pub mod Removal
pub mod Arrivals
pub mod Readmitted
pub mod Founding
pub mod Settings
pub mod Roles
pub mod Founded
mod Examples
