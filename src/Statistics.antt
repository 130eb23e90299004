-- ===== src/Statistics.antt =====
-- stats_observer.hpp and stats_observer.cpp: what the tool makes of the statistics samples.
pub mod Samples
pub mod Slots
pub mod Windows
pub mod Listener
pub mod Observer
pub mod Snapshot
