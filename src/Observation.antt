-- ===== src/Observation.antt =====
-- decision.cpp: how complete an observation was, and what it can measure at all.
pub mod Completeness
pub mod Servers
pub mod Measurable
pub mod Destinations
pub mod Ending
