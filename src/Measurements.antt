-- ===== src/Measurements.antt =====
-- decision.cpp, `apply_stats` and the functions that it calls: what the statistics module
-- measured is laid over the predicted verdicts.
pub mod Locators
pub mod Counters
pub mod Overlay
pub mod Apply
pub mod Unmeasured
