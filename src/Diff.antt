-- ===== src/Diff.antt =====
-- decision.cpp: `diff` and `diff_snapshots`, the comparison of two frames.
pub mod States
pub mod Changes
pub mod Laws
pub mod Complete
pub mod Same
pub mod Nodes
