-- ===== src/Measurements/Counters.antt =====
-- decision.cpp, `apply_stats`: the measurement of one pair, from the counters of the statistics
-- module. A counter is cumulative, and `last - min(last, first)` is what the observation saw.
-- The latency, the rate and the reliability counters of the source are left out.
pub mod Totals
use fastdds_transport_viz.Prelude.{
  ℕ, ◌+◌, ◌-◌, String, Bool, true, false, ◌||◌, ◌&&◌, not, List, [], ◌∷◌, ◌++◌, Option, none, some,
  any, str_eq, if◌then◌else◌, ◌==◌, ltb, min,
}
use fastdds_transport_viz.Prelude.OrderedMap.{lookup}
use fastdds_transport_viz.Prelude.Keys.{text_key, text_pair_key}
use fastdds_transport_viz.Model.Kinds.{Transport, transport_eq}
use fastdds_transport_viz.Model.Endpoints.{Endpoint}
use fastdds_transport_viz.Model.Pairs.{Measurement, MeasuredLocator}
use fastdds_transport_viz.Model.Stats.{TrafficSample, DataCountSample, StatsData}
use fastdds_transport_viz.Decision.Locators.{has_text}
use fastdds_transport_viz.Measurements.Locators.{
  reader_has_locator, transport_for_kind, entity_guids,
}

abbrev pub window : ℕ → ℕ → ℕ
window last first = last - min last first

-- `found = true; delivered += d->second;` on the two variables, where `none` is not found.
abbrev add_found : Option ℕ → Option ℕ → Option ℕ
add_found none sum = sum
add_found (some n) none = some n
add_found (some n) (some sum) = some (sum + n)

-- The inner loop over the reader's GUIDs, and the outer loop over the writer's.
unfoldable pub delivered_to : StatsData → String → List String → Option ℕ → Option ℕ
delivered_to stats wg [] sum = sum
delivered_to stats wg (rg ∷ rgs) sum =
    delivered_to stats wg rgs (add_found (lookup (wg, rg) stats.delivered) sum)

unfoldable pub delivered_from : StatsData → List String → List String → Option ℕ → Option ℕ
delivered_from stats [] rgs sum = sum
delivered_from stats (wg ∷ wgs) rgs sum =
    delivered_from stats wgs rgs (delivered_to stats wg rgs sum)

unfoldable pub measure_delivered : StatsData → Endpoint → Endpoint → Measurement → Measurement
measure_delivered stats writer reader m =
    elim (delivered_from stats (entity_guids writer) (entity_guids reader) none) [
      | none ↦ m
      | some n ↦ record m { delivered_samples = n; delivered = ltb 0 n }
    ]

-- One round of the loop over the writer's GUIDs that reads DATA_COUNT.
abbrev pub add_data_count : Option DataCountSample → Measurement → Measurement
add_data_count none m = m
add_data_count (some dc) m = record m {
  data_count_available = true;
  data_submessages = m.data_submessages + window dc.last dc.first;
}

unfoldable pub data_count_loop : StatsData → List String → Measurement → Measurement
data_count_loop stats [] m = m
data_count_loop stats (g ∷ gs) m =
    data_count_loop stats gs (add_data_count (lookup g stats.data_count) m)

abbrev data_count_topic : String
data_count_topic = "_fastdds_statistics_data_count"

-- A DATA_COUNT writer without a sample means that nothing was sent.
unfoldable pub measure_data_count : StatsData → Endpoint → Measurement → Measurement
measure_data_count stats writer m =
    let counted = data_count_loop stats (entity_guids writer) m in
    if not counted.data_count_available
      && any (λ p. str_eq p.0 writer.participant_guid_prefix && str_eq p.1 data_count_topic)
          stats.statistics_writers
    then record counted { data_count_available = true }
    else counted

abbrev pub add_transport : Transport → List Transport → List Transport
add_transport t ts = if any (λ u. transport_eq u t) ts then ts else ts ++ t ∷ []

-- The sample counts packets from the writer's participant to a locator of the reader.
unfoldable pub belongs : StatsData → Endpoint → Endpoint → TrafficSample → Bool
belongs stats writer reader s =
    str_eq s.src_participant_prefix writer.participant_guid_prefix
    && reader_has_locator reader s.dst stats.local_addresses
    && not (s.packets == 0)

abbrev pub add_traffic : TrafficSample → Measurement → Measurement
add_traffic s m =
    let packets = window s.packets s.packets_first in
    let bytes = s.bytes - s.bytes_first in
    record m {
      transports = add_transport (transport_for_kind s.dst.kind) m.transports;
      locators = m.locators ++ record { locator = s.dst; packets = packets; bytes = bytes } ∷ [];
      packets = m.packets + packets;
      bytes = m.bytes + bytes;
      packets_total = m.packets_total + s.packets;
      bytes_total = m.bytes_total + s.bytes;
    }

unfoldable pub measure_traffic :
    StatsData → Endpoint → Endpoint → List TrafficSample → Measurement → Measurement
measure_traffic stats writer reader [] m = m
measure_traffic stats writer reader (s ∷ ss) m =
    measure_traffic stats writer reader ss
      (if belongs stats writer reader s then add_traffic s m else m)

-- The measurement of a pair, in the order of the source.
unfoldable pub measure : StatsData → Endpoint → Endpoint → Measurement → Measurement
measure stats writer reader m = measure_traffic stats writer reader stats.traffic (
    measure_data_count stats writer (
      measure_delivered stats writer reader (record m {
        available = has_text writer.participant_guid_prefix stats.participants_with_stats;
      })))
