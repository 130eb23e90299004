-- ===== src/Summaries.antt =====
-- decision.cpp: from the discovered endpoints to the summaries of the topics.
pub mod Classes
pub mod Companions
pub mod Linking
pub mod Summarize
pub mod Filter
