-- ===== src/Decision.antt =====
-- decision.cpp: the prediction of the transport of one writer and reader pair.
-- `Locators`, `Qos`, `Split`, `Steps` and `Verdicts` hold the functions in the order of the source.
pub mod Locators
pub mod Qos
pub mod Split
pub mod Steps
pub mod Verdicts
pub mod Rules
pub mod Transport
pub mod Refinement
pub mod Evidence
pub mod Confidence
pub mod Reasons
