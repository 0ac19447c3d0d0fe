-- ===== src/Access.antt =====
-- Who may do what: src/access.rs, the users, roles, groups and streams of src/archive.rs, and the
-- handlers of src/access_api.rs.
pub mod Mongo
pub mod Docs
pub mod Exec
pub mod Archive
pub mod Context
pub mod Text
pub mod Detail
pub mod Users
pub mod Groups
pub mod Members
pub mod Streams
pub mod Triple
pub mod Frame
pub mod LastAdmin
pub mod Grants
pub mod Load
pub mod Provision
pub mod Examples
pub mod LastSuper
pub mod PatchUser
pub mod Upserts
pub mod Joining
