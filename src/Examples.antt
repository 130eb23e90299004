-- ===== src/Examples.antt =====
-- The tests, and the theorems applied to concrete endpoints, counters and frames.
mod Data
mod Decisions
mod Measured
mod Frames
mod Observed
mod Statistics
mod Memory
mod Written
mod Actions
