-- ===== src/Clusterer.antt =====
-- src/bin/gw_clusterer.rs: the pipeline of the clusterer binary.
pub mod World
pub mod Archiving
pub mod Handler
pub mod Main
pub mod Keeps
pub mod Runs
pub mod Trace
pub mod Settled
pub mod Requests
pub mod Replay
pub mod Replayed
pub mod Examples
pub mod Earliest
pub mod Waiting
pub mod Documents
pub mod Centres
pub mod Recovery
