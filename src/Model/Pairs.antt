-- ===== src/Model/Pairs.antt =====
-- model.hpp: Verdict, Measurement, Pair and TopicSummary.
use fastdds_transport_viz.Prelude.{ℕ, String, Bool, false, List, []}
use fastdds_transport_viz.Model.Kinds.{Transport, Confidence, TopicKind, GroupDirection}
use fastdds_transport_viz.Model.Endpoints.{Locator, EndpointPtr, no_locator}

pub record Verdict : Type 0 where
  pub transport : Transport
  pub confidence : Confidence
  pub locator : Locator
  pub locator_multicast : Bool
  pub reasons : List String
  pub warnings : List String

-- `Verdict v;`
abbrev pub new_verdict : Verdict
new_verdict = record {
  transport = Transport.no_transport;
  confidence = Confidence.certain;
  locator = no_locator;
  locator_multicast = false;
  reasons = [];
  warnings = [];
}

-- Byte counts are the `double`s of the source that hold whole numbers.
pub record MeasuredLocator : Type 0 where
  pub locator : Locator
  pub packets : ℕ
  pub bytes : ℕ

-- The fields that the verdict reads: latency, rate and reliability are left out.
pub record Measurement : Type 0 where
  pub available : Bool
  pub transports : List Transport
  pub locators : List MeasuredLocator
  pub packets : ℕ
  pub bytes : ℕ
  pub packets_total : ℕ
  pub bytes_total : ℕ
  pub delivered : Bool
  pub delivered_samples : ℕ
  pub data_count_available : Bool
  pub data_submessages : ℕ

abbrev pub new_measurement : Measurement
new_measurement = record {
  available = false;
  transports = [];
  locators = [];
  packets = 0;
  bytes = 0;
  packets_total = 0;
  bytes_total = 0;
  delivered = false;
  delivered_samples = 0;
  data_count_available = false;
  data_submessages = 0;
}

pub record Pair : Type 0 where
  pub writer : EndpointPtr
  pub reader : EndpointPtr
  pub verdict : Verdict
  pub measured : Measurement

pub record TopicSummary : Type 0 where
  pub dds_topic : String
  pub display_topic : String
  pub display_type : String
  pub dds_type : String
  pub is_ros_topic : Bool
  pub kind : TopicKind
  pub group : String
  pub direction : GroupDirection
  pub writers : List EndpointPtr
  pub readers : List EndpointPtr
  pub pairs : List Pair
  pub unmatched_reasons : List String
