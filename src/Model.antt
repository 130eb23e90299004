-- ===== src/Model.antt =====
-- The plain data model of include/fastdds_transport_viz/model.hpp.
-- A byte array is the list of its bytes, a set the list of its members, a `uint32_t` port or a
-- counter a natural number. A pointer to an endpoint is its place in the vector of endpoints,
-- which is its identity, with what the endpoint holds.
pub mod Kinds
pub mod Endpoints
pub mod Pairs
pub mod Stats
pub mod Names
pub mod Memory
