-- ===== src/Lib.antt =====
-- A model of the core of fastdds_transport_viz, which predicts the transport that Fast DDS uses
-- between each writer and reader of a ROS 2 system, checks the prediction against the statistics
-- of Fast DDS, and compares observations.
--
-- The observers of the program collect endpoints, node names and counters; summarize groups the
-- endpoints by topic and calls decide for each pair; apply_stats lays the counters over the
-- verdicts; note_unmeasured_pairs counts what stayed unmeasured; the renderers write the
-- document, and diff compares the frames of two of them. The model starts at the collected
-- endpoints, the samples of the statistics topics and the answers of the file system.
--
-- Prelude: Boolean tests, lists, texts and the ordered map that stands for std::map.
-- Model: src/fastdds_transport_viz/include/fastdds_transport_viz/model.hpp and
-- src/fastdds_transport_viz/src/model.cpp, the records and enumerations. A pointer to an
-- endpoint is its place in the vector together with the endpoint. The fields of Measurement,
-- StatsData, Participant, Changes and DiscoveryStatus are those that the modelled operations
-- use. Durations are nanoseconds or infinite; byte counts are whole numbers.
-- Decision: src/fastdds_transport_viz/src/decision.cpp from has_kind to decide. Decision.Steps
-- has decide_same_type in stages, where a stage either returns or goes on; Decision.Rules states
-- the selection rules as a relation.
-- Summaries: src/fastdds_transport_viz/src/decision.cpp, link_buffer_companions, summarize
-- (before classify_topics), classify_topics, member_label, filter_by_node and in_default_view.
-- Measurements: src/fastdds_transport_viz/src/decision.cpp, apply_stats and
-- note_unmeasured_pairs. The measurement of a pair (Counters) and the verdict overlay (Overlay)
-- are two functions, which apply_pair composes.
-- Names: src/fastdds_transport_viz/src/ros_names.cpp, demangle_topic, parse_action_member and
-- NodeNameTable.
-- Diff: src/fastdds_transport_viz/src/decision.cpp, pair_states, diff, and diff_snapshots with
-- its two ways to know a pair.
-- Observation: src/fastdds_transport_viz/src/decision.cpp, discovery_completeness,
-- attribute_discovery_servers, count_measurable_pairs, reader_destinations, measures_a_pair,
-- stats_settled and watch_ready.
-- Statistics: src/fastdds_transport_viz/src/stats_observer.cpp, the listener (Listener), the
-- steps that the observer takes under its mutex (Observer), and settle_status and snapshot
-- (Snapshot). A drain gives the mutex back between samples, so a run is a list of events, one
-- for each sample or call, and holds every interleaving; a sample is a value that Fast DDS hands
-- over. Observation.Ending has the rules that end an observation.
-- SharedMemory: src/fastdds_transport_viz/src/shm_info.cpp; the answers of the operating system
-- are arguments.
-- Documents: src/fastdds_transport_viz/src/parse_json.cpp, the readers of the enumerations, and
-- src/fastdds_transport_viz/src/render_csv.cpp, the quoting and the rows.
-- Examples: tests at concrete data, and each theorem below at concrete arguments.
--
-- Every loop of the source runs over a finite list and is structural recursion here, so no fuel
-- is needed; the digits of a 32-bit port number are written with at most ten. The counters of
-- the source are 64-bit and are natural numbers here: a wrap-around of a counter is left out. A
-- sum of the source that starts at 0 and a set that is read by membership alone are the list
-- operations that give the same answers.
--
-- The function fnmatch of the C library is a parameter of the definitions that use it. std::sort
-- is modelled by insertion.
--
-- Not modelled: the latency values of the statistics; the rate and reliability counters of
-- apply_stats with the warnings that they add; display_rows; the texts of explanations and
-- warnings; JSON values and the other rendering, the discovery observers and the command line.
-- They are input, output or calls of libraries, or not yet covered.
pub mod Prelude
pub mod Model
pub mod Decision
pub mod Measurements
pub mod Names
pub mod Diff
pub mod Summaries
pub mod Observation
pub mod Statistics
pub mod SharedMemory
pub mod Documents
pub mod Examples
