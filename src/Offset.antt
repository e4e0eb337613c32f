-- ===== src/Offset.antt =====
-- src/offset: tracking of acknowledged offsets, and the background task that commits them.
pub mod Partition
pub mod Tracker
pub mod Committer
