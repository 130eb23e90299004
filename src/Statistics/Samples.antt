-- ===== src/Statistics/Samples.antt =====
-- stats_observer.hpp and stats_observer.cpp: the readers of the statistics topics, and what they
-- take. The generated sample types and `SampleInfo` are not under the sources: these records hold
-- the values that the source reads from them, each GUID as `guid_to_string` writes it and each
-- locator as `convert_locator` gives it.
use fastdds_transport_viz.Prelude.{ℕ, ◌+◌, ◌*◌, String, Bool}
use fastdds_transport_viz.Prelude.OrderedMap.{Key}
use fastdds_transport_viz.Prelude.Keys.{text_key, number_key, both_key}
use fastdds_transport_viz.Model.Kinds.{LocatorKind}
use fastdds_transport_viz.Model.Endpoints.{Locator}
use fastdds_transport_viz.Model.Stats.{TrafficSample, HostInfo}

pub data StatsReader : Type 0 where
  rtps_sent history_latency physical_data data_count rtps_lost : StatsReader
  resent_datas heartbeat_count gap_count acknack_count nackfrag_count : StatsReader

-- The readers are created in this order.
abbrev pub reader_number : StatsReader → ℕ
reader_number StatsReader.rtps_sent = 0
reader_number StatsReader.history_latency = 1
reader_number StatsReader.physical_data = 2
reader_number StatsReader.data_count = 3
reader_number StatsReader.rtps_lost = 4
reader_number StatsReader.resent_datas = 5
reader_number StatsReader.heartbeat_count = 6
reader_number StatsReader.gap_count = 7
reader_number StatsReader.acknack_count = 8
reader_number StatsReader.nackfrag_count = 9

-- `SampleInfo`. The timestamp is the one of the source, `publisher_prefix` the prefix of the GUID
-- of the writer.
pub record Info : Type 0 where
  pub valid_data : Bool
  pub publisher_prefix : String
  pub writer_guid : String
  pub seconds : ℕ
  pub nanosec : ℕ
  pub sequence_number : ℕ

abbrev pub timestamp : Info → ℕ
timestamp info = info.seconds * 1000000000 + info.nanosec

-- `Entity2LocatorTraffic`
pub record Traffic : Type 0 where
  pub src_prefix : String
  pub dst_locator : Locator
  pub packet_count : ℕ
  pub byte_count : ℕ

-- `WriterReaderData`, without the latency.
pub record Delivery : Type 0 where
  pub writer_guid : String
  pub reader_guid : String

-- `EntityCount`
pub record EntityCount : Type 0 where
  pub guid : String
  pub count : ℕ

-- `PhysicalData`
pub record Physical : Type 0 where
  pub participant_prefix : String
  pub host_info : HostInfo

-- `static_cast<int>(kind)`
abbrev pub kind_number : LocatorKind → ℕ
kind_number LocatorKind.invalid = 0
kind_number LocatorKind.udpv4 = 1
kind_number LocatorKind.udpv6 = 2
kind_number LocatorKind.tcpv4 = 3
kind_number LocatorKind.tcpv6 = 4
kind_number LocatorKind.shm = 5

abbrev pub TrafficKey : Type 0
TrafficKey = String × (ℕ × (String × ℕ))

abbrev pub LostKey : Type 0
LostKey = String × TrafficKey

instance abbrev pub traffic_key : Key TrafficKey
traffic_key = both_key text_key (both_key number_key (both_key text_key number_key))

instance abbrev pub lost_key : Key LostKey
lost_key = both_key text_key traffic_key

abbrev pub traffic_key_of : TrafficSample → TrafficKey
traffic_key_of s = (s.src_participant_prefix, (kind_number s.dst.kind, (s.dst.address, s.dst.port)))

abbrev pub lost_key_of : TrafficSample → LostKey
lost_key_of s = (s.reporter_participant_prefix, traffic_key_of s)
