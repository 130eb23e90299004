-- ===== src/Model/Stats.antt =====
-- model.hpp: the data of the statistics module.
use fastdds_transport_viz.Prelude.{ℕ, String, Bool, true, false, List, []}
use fastdds_transport_viz.Model.Endpoints.{Locator, no_locator}

pub record TrafficSample : Type 0 where
  pub src_participant_prefix : String
  pub dst : Locator
  pub packets : ℕ
  pub bytes : ℕ
  pub packets_first : ℕ
  pub bytes_first : ℕ
  pub samples : ℕ
  pub reporter_participant_prefix : String

abbrev pub new_traffic : TrafficSample
new_traffic = record {
  src_participant_prefix = "";
  dst = no_locator;
  packets = 0;
  bytes = 0;
  packets_first = 0;
  bytes_first = 0;
  samples = 0;
  reporter_participant_prefix = "";
}

pub record HostInfo : Type 0 where
  pub host : String
  pub user : String
  pub process : String

pub record DataCountSample : Type 0 where
  pub first : ℕ
  pub last : ℕ
  pub samples : ℕ

-- The two timestamps are `double`s of seconds in the source, from a count of seconds and one of
-- nanoseconds; they are held here in nanoseconds, without the rounding of the conversion.
pub record DeliveryWindow : Type 0 where
  pub samples : ℕ
  pub first_s : ℕ
  pub last_s : ℕ

-- The latency values and the result of the settle rule are left out.
pub record StatsData : Type 0 where
  pub enabled : Bool
  pub physical : List (String × HostInfo)
  pub traffic : List TrafficSample
  pub delivered : List ((String × String) × ℕ)
  pub delivery_window : List ((String × String) × DeliveryWindow)
  pub latency_gaps : List (String × ℕ)
  pub rate_window_s : ℕ
  pub data_count : List (String × DataCountSample)
  pub lost : List TrafficSample
  pub resent_datas : List (String × DataCountSample)
  pub heartbeats : List (String × DataCountSample)
  pub gaps : List (String × DataCountSample)
  pub acknacks : List (String × DataCountSample)
  pub nackfrags : List (String × DataCountSample)
  pub statistics_writers : List (String × String)
  pub participants_with_stats : List String
  pub local_addresses : List String
  pub writer_instance_limit : Bool
  pub samples : ℕ
  pub samples_lost : ℕ
  pub samples_lost_latency : ℕ
  pub samples_lost_at_start : ℕ
  pub samples_rejected : ℕ
  pub writers_incompatible_qos : ℕ
  pub writers_announced : ℕ
  pub writers_heard : ℕ
  pub measured_instances : ℕ
  pub pairs_delivered : ℕ
  pub pairs_delivered_unmeasured : ℕ
  pub pairs_delivered_absent : ℕ
  pub warnings : List String

-- `StatsData data_;`
abbrev pub new_stats : StatsData
new_stats = record {
  enabled = false;
  physical = [];
  traffic = [];
  delivered = [];
  delivery_window = [];
  latency_gaps = [];
  rate_window_s = 0;
  data_count = [];
  lost = [];
  resent_datas = [];
  heartbeats = [];
  gaps = [];
  acknacks = [];
  nackfrags = [];
  statistics_writers = [];
  participants_with_stats = [];
  local_addresses = [];
  writer_instance_limit = true;
  samples = 0;
  samples_lost = 0;
  samples_lost_latency = 0;
  samples_lost_at_start = 0;
  samples_rejected = 0;
  writers_incompatible_qos = 0;
  writers_announced = 0;
  writers_heard = 0;
  measured_instances = 0;
  pairs_delivered = 0;
  pairs_delivered_unmeasured = 0;
  pairs_delivered_absent = 0;
  warnings = [];
}
