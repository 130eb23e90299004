-- ===== src/Statistics/Observer/Counters.antt =====
-- The counters that the observer keeps, against the samples of a run.
use fastdds_transport_viz.Prelude.{
  List, [], ◌∷◌, collect, keep_if, if◌then◌else◌, ◌≡◌, refl, inl, inr, Bool-cases,
}
use fastdds_transport_viz.Prelude.OrderedMap.{lookup}
use fastdds_transport_viz.Prelude.OrderedMap.Updates.{update_each}
use fastdds_transport_viz.Prelude.Keys.{text_key}
use fastdds_transport_viz.Model.Stats.{TrafficSample}
use fastdds_transport_viz.Statistics.Samples.{
  Info, TrafficKey, LostKey, traffic_key, lost_key, traffic_key_of, lost_key_of,
}
use fastdds_transport_viz.Statistics.Slots.{sent_sample, lost_sample, next_slot}
use fastdds_transport_viz.Statistics.Slots.Observed.{observed, accumulate-observed}
use fastdds_transport_viz.Statistics.Observer.Runs.{
  if_valid-keeps, prune_rate_window-keeps, lookup-run_events,
}
use fastdds_transport_viz.Statistics.Observer.{
  new_observer, Observer, Event, sent, delivery, end_of_deliveries, count, lost, physical,
  rate_window, destinations, on_event, run_events, take_sent, take_lost, take_count, take_delivery,
  take_physical,
}

-- The samples of an event, without those that carry no data.
abbrev pub valid {ℓ} : {A : Type ℓ} → Info → A → List A
valid info a = if info.valid_data then a ∷ [] else []

abbrev pub sent_of : Event → List TrafficSample
sent_of (sent info t) = valid info (sent_sample t)
sent_of _ = []

abbrev pub lost_of : Event → List TrafficSample
lost_of (lost info t) = valid info (lost_sample info t)
lost_of _ = []

on_event-traffic :
    (e : Event) (o : Observer)
    → (on_event e o).traffic ≡ update_each traffic_key_of next_slot (sent_of e) o.traffic
unfolding on_event take_sent take_lost take_count take_delivery take_physical
on_event-traffic (sent info t) o = elim (Bool-cases info.valid_data) [
  | inl e ↦ rw e refl
  | inr e ↦ rw e refl
]
on_event-traffic (delivery info d) o =
    if_valid-keeps (λ o. o.traffic) info (take_delivery info d) o refl
on_event-traffic end_of_deliveries o = (prune_rate_window-keeps o).0
on_event-traffic (count c info n) o =
    if_valid-keeps (λ o. o.traffic) info (take_count c info n) o refl
on_event-traffic (lost info t) o = if_valid-keeps (λ o. o.traffic) info (take_lost info t) o refl
on_event-traffic (physical info p) o =
    if_valid-keeps (λ o. o.traffic) info (take_physical info p) o refl
on_event-traffic (rate_window b) o = (prune_rate_window-keeps _).0
on_event-traffic (destinations d) o = refl

on_event-lost :
    (e : Event) (o : Observer)
    → (on_event e o).lost ≡ update_each lost_key_of next_slot (lost_of e) o.lost
unfolding on_event take_sent take_lost take_count take_delivery take_physical
on_event-lost (sent info t) o = if_valid-keeps (λ o. o.lost) info (take_sent info t) o refl
on_event-lost (delivery info d) o = if_valid-keeps (λ o. o.lost) info (take_delivery info d) o refl
on_event-lost end_of_deliveries o = (prune_rate_window-keeps o).1
on_event-lost (count c info n) o = if_valid-keeps (λ o. o.lost) info (take_count c info n) o refl
on_event-lost (lost info t) o = elim (Bool-cases info.valid_data) [
  | inl e ↦ rw e refl
  | inr e ↦ rw e refl
]
on_event-lost (physical info p) o = if_valid-keeps (λ o. o.lost) info (take_physical info p) o refl
on_event-lost (rate_window b) o = (prune_rate_window-keeps _).1
on_event-lost (destinations d) o = refl

pub run_events-traffic :
    (k : TrafficKey) (es : List Event)
    → lookup k (run_events es new_observer).traffic
      ≡ observed (keep_if (λ s. traffic_key.same (traffic_key_of s) k) (collect sent_of es))
unfolding lookup
run_events-traffic k es =
    rw
      (lookup-run_events (λ o. o.traffic) sent_of traffic_key_of next_slot on_event-traffic k es
        new_observer)
      (accumulate-observed _)

pub run_events-lost :
    (k : LostKey) (es : List Event)
    → lookup k (run_events es new_observer).lost
      ≡ observed (keep_if (λ s. lost_key.same (lost_key_of s) k) (collect lost_of es))
unfolding lookup
run_events-lost k es =
    rw
      (lookup-run_events (λ o. o.lost) lost_of lost_key_of next_slot on_event-lost k es
        new_observer)
      (accumulate-observed _)
