-- ===== src/Examples/Measured.antt =====
-- The measurements, at the counters of one talker and one listener.
use fastdds_transport_viz.Prelude.{◌≡◌, ◌≤◌, ◌⊎◌, refl, true, false, List, [], ◌∷◌, count_if}
use fastdds_transport_viz.Prelude.OrderedMap.{lookup}
use fastdds_transport_viz.Model.Kinds.{Transport, Confidence}
use fastdds_transport_viz.Model.Pairs.{
  Verdict, Measurement, TopicSummary, new_measurement, new_verdict,
}
use fastdds_transport_viz.Measurements.Locators.{
  same_locator, same_locator_local, reader_has_locator, transport_for_kind, entity_guids,
}
use fastdds_transport_viz.Measurements.Counters.{
  measure, measure_delivered, measure_data_count, measure_traffic, data_count_loop, delivered_from,
  delivered_to, belongs,
}
use fastdds_transport_viz.Measurements.Counters.Totals.{IsTotalled, measure-IsTotalled}
use fastdds_transport_viz.Measurements.Overlay.{
  Surroundings, first_or_shm, unmatched, datasharing_overlay, transport_overlay, process_overlay,
  overlay,
}
use fastdds_transport_viz.Measurements.Overlay.Laws.{
  ContradictsZeroCopy, IsProven, overlay-transport, overlay-certain,
}
use fastdds_transport_viz.Measurements.Overlay.Warnings.{Extends, overlay-Extends}
use fastdds_transport_viz.Measurements.Apply.{apply_stats}
use fastdds_transport_viz.Measurements.Unmeasured.{note_unmeasured_pairs}
use fastdds_transport_viz.Measurements.Unmeasured.Laws.{
  all_pairs, is_due, some_lost, is_unmeasured, is_absent, note_unmeasured_pairs-counts,
  note_unmeasured_pairs-twice,
}
use fastdds_transport_viz.Summaries.Summarize.{summarize}
use fastdds_transport_viz.Examples.Data.{no_patterns, talker, listener, measured_stats}

abbrev topics : List TopicSummary
topics = summarize no_patterns (talker ∷ listener ∷ [])

abbrev alone : Surroundings
alone = record { limit_suspected = false; all_readers_datasharing = true; local_addresses = [] }

-- A data-sharing prediction, and a delivery without a packet.
abbrev zero_copy : Verdict
zero_copy = record new_verdict {
  transport = Transport.data_sharing;
  confidence = Confidence.likely;
  reasons = "datasharing-unverified-by-traffic" ∷ [];
}

abbrev silent_delivery : Measurement
silent_delivery = record new_measurement {
  available = true;
  delivered = true;
  delivered_samples = 3;
}

-- The same with a DATA counter that proves a transport.
abbrev counted_delivery : Measurement
counted_delivery = record silent_delivery {
  transports = Transport.shm ∷ [];
  data_count_available = true;
  data_submessages = 4;
}

measure_test :
    let m = measure measured_stats talker listener new_measurement in
    (m.packets ≡ 5)
    × (m.packets_total ≡ 7)
    × (m.delivered ≡ true)
    × (m.transports ≡ Transport.shm ∷ [])
unfolding measure measure_delivered measure_data_count measure_traffic data_count_loop
    delivered_from delivered_to belongs lookup reader_has_locator same_locator_local same_locator
    transport_for_kind entity_guids
measure_test = (refl, refl, refl, refl)

measure-IsTotalled_example : IsTotalled (measure measured_stats talker listener new_measurement)
measure-IsTotalled_example = measure-IsTotalled measured_stats talker listener

overlay-transport_example :
    ((overlay alone counted_delivery zero_copy).transport ≡ zero_copy.transport)
    ⊎ (ContradictsZeroCopy alone counted_delivery zero_copy
        × ((overlay alone counted_delivery zero_copy).transport
            ≡ first_or_shm counted_delivery.transports))
overlay-transport_example = overlay-transport alone counted_delivery zero_copy

confirmed : (overlay alone silent_delivery zero_copy).confidence ≡ Confidence.certain
unfolding overlay process_overlay transport_overlay datasharing_overlay unmatched
confirmed = refl

overlay-certain_example : IsProven silent_delivery zero_copy
overlay-certain_example = overlay-certain alone silent_delivery zero_copy refl confirmed

overlay-Extends_example : Extends zero_copy (overlay alone counted_delivery zero_copy)
overlay-Extends_example = overlay-Extends alone counted_delivery zero_copy

note_unmeasured_pairs-counts_example :
    let measured = apply_stats topics measured_stats in
    let after = note_unmeasured_pairs measured measured_stats in
    (after.pairs_delivered ≡ count_if is_due (all_pairs measured))
    × (after.pairs_delivered_unmeasured ≡ count_if is_unmeasured (all_pairs measured))
    × (after.pairs_delivered_absent
        ≡ count_if (is_absent (some_lost measured_stats)) (all_pairs measured))
    × (after.pairs_delivered_absent ≤ after.pairs_delivered_unmeasured)
    × (after.pairs_delivered_unmeasured ≤ after.pairs_delivered)
note_unmeasured_pairs-counts_example =
    note_unmeasured_pairs-counts (apply_stats topics measured_stats) measured_stats

note_unmeasured_pairs-twice_example :
    let measured = apply_stats topics measured_stats in
    note_unmeasured_pairs measured (note_unmeasured_pairs measured measured_stats)
    ≡ note_unmeasured_pairs measured measured_stats
note_unmeasured_pairs-twice_example =
    note_unmeasured_pairs-twice (apply_stats topics measured_stats) measured_stats
