-- ===== src/Clustering.antt =====
-- src/clustering.rs: the superevent clustering engine.
-- `Defs` holds the data and the operations; `Ids` the identifiers; the other children prove.
pub mod Ids
pub mod Defs
pub mod Neighbours
pub mod Nearest
pub mod Invariant
pub mod Process
pub mod Recorded
pub mod Cleanup
pub mod Attach
pub mod Run
pub mod Examples
