-- ===== src/Examples/Statistics.antt =====
-- Witnesses and tests for the statistics observer: three samples of RTPS_SENT and one latency sample
-- of a talker, and the losses around its match.
use fastdds_transport_viz.Prelude.{
  ℕ, String, true, false, List, [], ◌∷◌, none, map, keep_if, collect, any, str_eq, ◌≡◌, ◌↔◌, refl,
  ◌+◌, ◌≤◌, ◌==◌, ◌||◌, ltb,
}
use fastdds_transport_viz.Prelude.OrderedMap.{lookup}
use fastdds_transport_viz.Prelude.OrderedMap.Values.{AllValues}
use fastdds_transport_viz.Prelude.Keys.{text_key, text_pair_key, pair_same}
use fastdds_transport_viz.Observation.Ending.{stats_settled, stats_settle_min}
use fastdds_transport_viz.Statistics.Samples.{
  StatsReader, Info, Traffic, Delivery, TrafficKey, LostKey, traffic_key, lost_key, traffic_key_of,
  lost_key_of,
}
use fastdds_transport_viz.Statistics.Slots.Observed.{observed, counted}
use fastdds_transport_viz.Statistics.Windows.Pruned.{IsPruned}
use fastdds_transport_viz.Statistics.Windows.Reduced.{window_of}
use fastdds_transport_viz.Statistics.Listener.{
  Callback, sample_lost, subscription_matched, MatchChange, run_callbacks, new_listener,
}
use fastdds_transport_viz.Statistics.Listener.Losses.{
  late_losses, late_loss, late_loss_at, reported, lost_by, run_callbacks-losses,
}
use fastdds_transport_viz.Statistics.Listener.Matches.{last_match}
use fastdds_transport_viz.Statistics.Observer.{
  Event, sent, delivery, end_of_deliveries, count, rate_window, Counter, counter_map, on_event,
  take_delivery, run_events, new_observer, prune_rate_window,
}
use fastdds_transport_viz.Statistics.Observer.Counters.{sent_of, lost_of}
use fastdds_transport_viz.Statistics.Observer.Entities.{count_of, run_events-counters}
use fastdds_transport_viz.Statistics.Observer.Bounds.{
  pair_sec, writer_sec, prune_rate_window-IsPruned,
}
use fastdds_transport_viz.Statistics.Observer.Heard.{is_text, sent_writers}
use fastdds_transport_viz.Statistics.Observer.Deliveries.{delivered_samples}
use fastdds_transport_viz.Statistics.Snapshot.{settle_status, report}
use fastdds_transport_viz.Statistics.Snapshot.Settled.{stats_settled-settle_status}
use fastdds_transport_viz.Statistics.Snapshot.Windows.{report-delivery_window}
use fastdds_transport_viz.Examples.Data.{shm_locator, talker, listener}

abbrev info_at : ℕ → Info
info_at second = record {
  valid_data = true;
  publisher_prefix = talker.participant_guid_prefix;
  writer_guid = "the statistics writer";
  seconds = second;
  nanosec = 5;
  sequence_number = second;
}

abbrev traffic_with : ℕ → Traffic
traffic_with packets = record {
  src_prefix = talker.participant_guid_prefix;
  dst_locator = shm_locator;
  packet_count = packets;
  byte_count = 100;
}

abbrev a_delivery : Delivery
a_delivery = record { writer_guid = talker.guid; reader_guid = listener.guid }

abbrev observation : List Event
observation =
    sent (info_at 1) (traffic_with 4)
    ∷ sent (record (info_at 2) { valid_data = false }) (traffic_with 90)
    ∷ sent (info_at 3) (traffic_with 9)
    ∷ delivery (info_at 1) a_delivery
    ∷ delivery (info_at 3) a_delivery
    ∷ end_of_deliveries
    ∷ count Counter.data_count (info_at 4) (record { guid = talker.guid; count = 6 })
    ∷ []

run_events-counters_example :
    ((k : TrafficKey)
      → lookup k (run_events observation new_observer).traffic
        ≡ observed
            (keep_if (λ s. traffic_key.same (traffic_key_of s) k) (collect sent_of observation)))
    × ((k : LostKey)
        → lookup k (run_events observation new_observer).lost
          ≡ observed (keep_if (λ s. lost_key.same (lost_key_of s) k) (collect lost_of observation)))
    × ((c : Counter) (guid : String)
        → lookup guid (counter_map c (run_events observation new_observer).stats)
          ≡ counted (
              map
                (λ n. n.count)
                (keep_if (λ n. str_eq n.guid guid) (collect (count_of c) observation))))
run_events-counters_example = run_events-counters observation

sent_packets : List ℕ
sent_packets = map (λ s. s.packets) (collect sent_of observation)

-- The window slides from the start; the sample of second 1 is older than the five seconds to 8.
abbrev watched : List Event
watched =
    rate_window true
    ∷ delivery (info_at 1) a_delivery
    ∷ delivery (info_at 6) a_delivery
    ∷ delivery (info_at 8) a_delivery
    ∷ []

prune_rate_window-IsPruned_example :
    AllValues
      (IsPruned pair_sec 8)
      (prune_rate_window (run_events watched new_observer)).pair_seconds
    × AllValues
        (IsPruned writer_sec 8)
        (prune_rate_window (run_events watched new_observer)).writer_seconds
unfolding run_events on_event take_delivery prune_rate_window
prune_rate_window-IsPruned_example = prune_rate_window-IsPruned watched 8 refl refl

-- Two samples lost before the match, three in its first seconds, four afterwards.
abbrev calls : List Callback
calls =
    sample_lost StatsReader.rtps_sent 1 2
    ∷ subscription_matched StatsReader.rtps_sent "the statistics writer" MatchChange.gained 10
    ∷ sample_lost StatsReader.rtps_sent 4000000000 3
    ∷ sample_lost StatsReader.history_latency 6000000000 4
    ∷ []

run_callbacks-losses_example :
    ((run_callbacks calls (new_listener 0)).lost ≡ late_losses late_loss none calls)
    × ((run_callbacks calls (new_listener 0)).lost_latency
        ≡ late_losses (late_loss_at StatsReader.history_latency) none calls)
    × ((run_callbacks calls (new_listener 0)).lost
          + (run_callbacks calls (new_listener 0)).lost_at_start
        ≡ reported lost_by calls)
run_callbacks-losses_example = run_callbacks-losses 0 calls

four_lost : late_losses late_loss none calls ≡ 4
four_lost = refl

-- Six seconds in, with one measurable pair that nothing measures yet.
stats_settled-settle_status_example :
    let s =
      settle_status "rtps_sent"
        (run_callbacks calls (new_listener 0))
        (run_events observation new_observer) in
    (stats_settled true 6000000000 s.announced s.heard 1 s.measured_instances 1 0 ≡ true) ↔ (
      (true ≡ true)
      × (stats_settle_min ≤ 6000000000)
      × ((w : String)
          → last_match StatsReader.rtps_sent w calls false ≡ true
          → any (is_text w) (collect sent_writers observation) ≡ true)
      × (0 ≤ 1)
      × ((s.announced == 0 || 1 == 0 || ltb 0 s.measured_instances) ≡ true))
stats_settled-settle_status_example =
    stats_settled-settle_status "rtps_sent" 0 calls observation true 6000000000 1 1 0

report-delivery_window_example :
    lookup
      (talker.guid, listener.guid)
      (report "rtps_sent" true
        (new_listener 0)
        (run_events observation new_observer)).delivery_window
    ≡ window_of (
        map
          (λ s. s.1.1)
          (keep_if
            (λ s. pair_same s.0 (talker.guid, listener.guid))
            (collect delivered_samples observation)))
report-delivery_window_example =
    report-delivery_window "rtps_sent" true (new_listener 0) (talker.guid, listener.guid)
      observation refl
