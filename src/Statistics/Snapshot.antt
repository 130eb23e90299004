-- ===== src/Statistics/Snapshot.antt =====
-- stats_observer.cpp, `settle_status` and `snapshot`: what the observer reports. The name of the
-- RTPS_SENT topic is an argument, as is the instance limit, which the build sets.
pub mod Settled
pub mod Windows
use fastdds_transport_viz.Prelude.{
  ℕ, ◌+◌, ◌-◌, String, Bool, true, false, List, [], ◌∷◌, ◌++◌, map, count_if, ltb, if◌then◌else◌,
  ◌==◌,
}
use fastdds_transport_viz.Prelude.OrderedMap.{Key, lookup, has_key}
use fastdds_transport_viz.Prelude.Keys.{text_key, number_key}
use fastdds_transport_viz.Prelude.Text.{text_append}
use fastdds_transport_viz.Model.Stats.{StatsData, DeliveryWindow}
use fastdds_transport_viz.Observation.Destinations.{measures_a_pair}
use fastdds_transport_viz.Statistics.Samples.{StatsReader, reader_number}
use fastdds_transport_viz.Statistics.Windows.{
  PairSecond, WriterSecond, no_samples, reduce_pair, reduce_writer,
}
use fastdds_transport_viz.Statistics.Listener.{Listener, TextSet, set_at}
use fastdds_transport_viz.Statistics.Observer.{Observer, Takes, drain}

pub record Settle : Type 0 where
  pub announced : ℕ
  pub heard : ℕ
  pub measured_instances : ℕ
  pub unheard : List String

-- One round of the loop over the matched writers.
abbrev pub count_writer : String → TextSet → String → Settle → Settle
count_writer topic heard guid out =
    if has_key guid heard
    then record out { announced = out.announced + 1; heard = out.heard + 1 }
    else record out {
      announced = out.announced + 1;
      unheard = out.unheard ++ text_append topic (text_append " " guid) ∷ [];
    }

pub count_writers : String → TextSet → TextSet → Settle → Settle
count_writers topic heard [] out = out
count_writers topic heard ((guid, here) ∷ guids) out =
    count_writers topic heard guids (count_writer topic heard guid out)

-- The loop over the traffic, before the one over the writers.
abbrev pub start_settle : Observer → Settle
start_settle o = record {
  announced = 0;
  heard = 0;
  measured_instances = count_if (λ e. measures_a_pair e.1 o.reader_destinations) o.traffic;
  unheard = [];
}

pub settle_status : (topic : String) → Listener → Observer → Settle
settle_status topic l o =
    let n = reader_number StatsReader.rtps_sent in
    count_writers topic (set_at (lookup n o.heard)) (set_at (lookup n l.matched)) (start_settle o)

pub delivery_windows :
    List ((String × String) × List PairSecond) → List ((String × String) × DeliveryWindow)
delivery_windows [] = []
delivery_windows ((k, d) ∷ m) =
    let rest = delivery_windows m in
    let w = reduce_pair d no_samples in if ltb 0 w.samples then (k, w) ∷ rest else rest

-- The samples that the window of a writer numbers and the observer did not get.
pub gap_of : WriterSecond → ℕ
gap_of w = w.max_seq - w.min_seq + 1 - w.samples

pub gaps_per_writer : List (String × List WriterSecond) → List (String × ℕ)
gaps_per_writer [] = []
gaps_per_writer ((k, d) ∷ m) =
    let rest = gaps_per_writer m in
    let w = reduce_writer d (record { sec = 0; min_seq = 0; max_seq = 0; samples = 0 }) in
    if w.samples == 0 then rest else if ltb 0 (gap_of w) then (k, gap_of w) ∷ rest else rest

-- The copy, after the final sweep.
pub report : (topic : String) → (instance_limit : Bool) → Listener → Observer → StatsData
report topic instance_limit l o =
    let settle = settle_status topic l o in
    record o.stats {
      writer_instance_limit = instance_limit;
      writers_announced = settle.announced;
      writers_heard = settle.heard;
      measured_instances = settle.measured_instances;
      samples_lost = l.lost;
      samples_lost_at_start = l.lost_at_start;
      samples_rejected = l.rejected;
      writers_incompatible_qos = l.incompatible_qos;
      samples_lost_latency = l.lost_latency;
      delivery_window = delivery_windows o.pair_seconds;
      latency_gaps = gaps_per_writer o.writer_seconds;
      traffic = map (λ e. e.1) o.traffic;
      lost = map (λ e. e.1) o.lost;
    }

pub snapshot :
    (topic : String) → (instance_limit : Bool) → Takes → Listener → Observer → StatsData × Observer
snapshot topic instance_limit t l o =
    let swept = drain t o in (report topic instance_limit l swept, swept)
