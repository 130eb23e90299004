-- ===== src/Statistics/Observer/Entities.antt =====
-- The six counters per entity that `drain_counter` fills, against the samples of a run.
use fastdds_transport_viz.Prelude.{
  String, Bool, true, List, [], Option, none, collect, keep_if, map, if◌then◌else◌, ◌==◌, ◌≡◌, refl,
  inl, inr, arith, Bool-cases, str_eq,
}
use fastdds_transport_viz.Prelude.OrderedMap.{lookup}
use fastdds_transport_viz.Prelude.OrderedMap.Updates.{update_at, update_each, accumulate-map}
use fastdds_transport_viz.Prelude.Keys.{text_key}
use fastdds_transport_viz.Model.Stats.{DataCountSample, StatsData}
use fastdds_transport_viz.Statistics.Samples.{
  reader_number, Info, EntityCount, TrafficKey, LostKey, traffic_key, lost_key, traffic_key_of,
  lost_key_of,
}
use fastdds_transport_viz.Statistics.Slots.{next_counter}
use fastdds_transport_viz.Statistics.Slots.Observed.{observed, counted, accumulate-counted}
use fastdds_transport_viz.Statistics.Observer.Counters.{
  valid, sent_of, lost_of, run_events-traffic, run_events-lost,
}
use fastdds_transport_viz.Statistics.Observer.Runs.{
  if_valid-keeps, if_valid-get, prune_rate_window-keeps, lookup-run_events,
}
use fastdds_transport_viz.Statistics.Observer.{
  new_observer, Observer, counter_reader, set_counter_map, count_sample, Counter, Event, sent,
  delivery, end_of_deliveries, count, lost, physical, rate_window, destinations, on_event,
  run_events, counter_map, take_sent, take_lost, take_count, take_delivery, take_physical,
}

abbrev pub same_counter : Counter → Counter → Bool
same_counter c d = reader_number (counter_reader c) == reader_number (counter_reader d)

abbrev pub count_of : Counter → Event → List EntityCount
count_of c (count d info n) = if same_counter c d then valid info n else []
count_of c _ = []

counter_map-set_counter_map :
    (c d : Counter) (m : List (String × DataCountSample)) (s : StatsData)
    → counter_map c (set_counter_map d m s) ≡ (if same_counter c d then m else counter_map c s)
counter_map-set_counter_map c d m s = ground arith

counter_map-count_sample :
    (c : Counter) (info : Info) (s : StatsData)
    → counter_map c (count_sample info s) ≡ counter_map c s
counter_map-count_sample c info s = ground arith

same_counter-eq : (c d : Counter) → same_counter c d ≡ true → c ≡ d
same_counter-eq c d h = ground arith

counter_map-new_observer : (c : Counter) → counter_map c new_observer.stats ≡ []
counter_map-new_observer c = ground arith

abbrev next_entity : EntityCount → Option DataCountSample → DataCountSample
next_entity n = next_counter n.count

abbrev entity_updates :
    Counter → Event → List (String × DataCountSample) → List (String × DataCountSample)
entity_updates c e = update_each (λ n. n.guid) next_entity (count_of c e)

counter_map-take_count :
    (c d : Counter) (info : Info) (n : EntityCount) (o : Observer)
    → counter_map c (take_count d info n o).stats ≡ (
        if same_counter c d
        then update_at n.guid (next_entity n) (counter_map c o.stats)
        else counter_map c o.stats)
unfolding take_count
counter_map-take_count c d info n o =
    rw
      (
        counter_map-set_counter_map c d
            (update_at n.guid (next_entity n) (counter_map d (count_sample info o.stats)))
            (count_sample info o.stats),
        counter_map-count_sample d info o.stats,
        counter_map-count_sample c info o.stats,
      )
      (elim (Bool-cases (same_counter c d)) [
        | inl e ↦ rw (e, same_counter-eq c d e) refl
        | inr e ↦ rw e refl
      ])

on_event-counter_map :
    (c : Counter) (e : Event) (o : Observer)
    → counter_map c (on_event e o).stats ≡ entity_updates c e (counter_map c o.stats)
unfolding on_event take_sent take_lost take_delivery take_physical
on_event-counter_map c (sent info t) o =
    if_valid-keeps (λ o. counter_map c o.stats) info (take_sent info t) o
      (counter_map-count_sample c info o.stats)
on_event-counter_map c (delivery info d) o =
    if_valid-keeps (λ o. counter_map c o.stats) info (take_delivery info d) o (ground arith)
on_event-counter_map c end_of_deliveries o = rw (prune_rate_window-keeps o).2 refl
on_event-counter_map c (count d info n) o =
    rw
      (
        if_valid-get (λ o. counter_map c o.stats) info (take_count d info n) o,
        counter_map-take_count c d info n o,
      )
      (elim (Bool-cases info.valid_data) [
        | inl e ↦ elim (Bool-cases (same_counter c d)) [
          | inl f ↦ rw (e, f) refl
          | inr f ↦ rw (e, f) refl
        ]
        | inr e ↦ elim (Bool-cases (same_counter c d)) [
          | inl f ↦ rw (e, f) refl
          | inr f ↦ rw (e, f) refl
        ]
      ])
on_event-counter_map c (lost info t) o =
    if_valid-keeps (λ o. counter_map c o.stats) info (take_lost info t) o
      (counter_map-count_sample c info o.stats)
on_event-counter_map c (physical info p) o =
    if_valid-keeps (λ o. counter_map c o.stats) info (take_physical info p) o (ground arith)
on_event-counter_map c (rate_window b) o = rw (prune_rate_window-keeps _).2 (ground arith)
on_event-counter_map c (destinations d) o = refl

run_events-counter_map :
    (c : Counter) (guid : String) (es : List Event)
    → lookup guid (counter_map c (run_events es new_observer).stats)
      ≡ counted (map (λ n. n.count) (keep_if (λ n. str_eq n.guid guid) (collect (count_of c) es)))
unfolding lookup
run_events-counter_map c guid es =
    rw
      (
        lookup-run_events (λ o. counter_map c o.stats) (count_of c) (λ n. n.guid) next_entity
            (on_event-counter_map c) guid es new_observer,
        counter_map-new_observer c,
        accumulate-map next_counter (λ n. n.count)
            (keep_if (λ n. str_eq n.guid guid) (collect (count_of c) es)) none,
      )
      (accumulate-counted _)

-- After any run, the entry of a key of RTPS_SENT or RTPS_LOST is the last valid sample of that key
-- in the run with the first counts of the first such sample and the number of samples, and the entry
-- of an entity in each of the six other maps has the first and the last count of the valid samples
-- for it and their number; a key without a sample has no entry.
pub run_events-counters :
    (es : List Event)
    → ((k : TrafficKey)
        → lookup k (run_events es new_observer).traffic
          ≡ observed (keep_if (λ s. traffic_key.same (traffic_key_of s) k) (collect sent_of es)))
      × ((k : LostKey)
          → lookup k (run_events es new_observer).lost
            ≡ observed (keep_if (λ s. lost_key.same (lost_key_of s) k) (collect lost_of es)))
      × ((c : Counter) (guid : String)
          → lookup guid (counter_map c (run_events es new_observer).stats)
            ≡ counted
                (map (λ n. n.count) (keep_if (λ n. str_eq n.guid guid) (collect (count_of c) es))))
run_events-counters es = (
  λ k. run_events-traffic k es,
  λ k. run_events-lost k es,
  λ c guid. run_events-counter_map c guid es,
)
