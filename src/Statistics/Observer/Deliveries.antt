-- ===== src/Statistics/Observer/Deliveries.antt =====
-- The seconds of the pairs in a run whose rate window never slides.
use fastdds_transport_viz.Prelude.{
  ℕ, String, Bool, true, false, not, List, [], Option, none, keep_if, collect, all, map,
  if◌then◌else◌, ◌≡◌, refl, ap, ◌∙◌, inl, inr, arith, Bool-cases,
}
use fastdds_transport_viz.Prelude.OrderedMap.{lookup}
use fastdds_transport_viz.Prelude.OrderedMap.Updates.{update_each, accumulate, accumulate-map}
use fastdds_transport_viz.Prelude.OrderedMap.Values.{AllValues, update_each-AllValues}
use fastdds_transport_viz.Prelude.Keys.{text_pair_key, pair_same}
use fastdds_transport_viz.Statistics.Samples.{timestamp}
use fastdds_transport_viz.Statistics.Windows.{PairSecond}
use fastdds_transport_viz.Statistics.Windows.Reduced.{
  next_second, IsFilled, next_second-first, next_second-later,
}
use fastdds_transport_viz.Statistics.Observer.{
  Observer, new_observer, Event, sent, delivery, end_of_deliveries, count, lost, physical,
  rate_window, destinations, on_event, run_events, take_sent, take_lost, take_count, take_delivery,
  take_physical, prune_rate_window, prune_windows, pair_of,
}
use fastdds_transport_viz.Statistics.Observer.Counters.{valid}
use fastdds_transport_viz.Statistics.Observer.Runs.{
  if_valid-keeps, if_valid-get, run_events-updates, lookup-run_events_while,
}

-- The event does not ask for a sliding window.
abbrev pub is_one_shot : Event → Bool
is_one_shot (rate_window sliding) = not sliding
is_one_shot _ = true

-- The pair of a sample, with its second and timestamp.
abbrev pub delivered_samples : Event → List ((String × String) × (ℕ × ℕ))
delivered_samples (delivery info d) = valid info (pair_of d, (info.seconds, timestamp info))
delivered_samples _ = []

abbrev next_pair : (String × String) × (ℕ × ℕ) → Option (List PairSecond) → List PairSecond
next_pair s = next_second s.1

abbrev IsStill : Observer → Type 0
IsStill o = o.sliding_window ≡ false

prune_rate_window-still : (o : Observer) → IsStill o → prune_rate_window o ≡ o
unfolding prune_rate_window
prune_rate_window-still o h = ap (λ b. if b then prune_windows o.newest_second o else o) h

on_event-pair_seconds :
    (e : Event) (o : Observer)
    → is_one_shot e ≡ true
    → IsStill o
    → ((on_event e o).pair_seconds
        ≡ update_each (λ s. s.0) next_pair (delivered_samples e) o.pair_seconds)
      × IsStill (on_event e o)
unfolding on_event take_sent take_lost take_count take_delivery take_physical
on_event-pair_seconds (sent info t) o f s = (
  if_valid-keeps (λ o. o.pair_seconds) info (take_sent info t) o refl,
  if_valid-keeps (λ o. o.sliding_window) info (take_sent info t) o refl ∙ s,
)
on_event-pair_seconds (delivery info d) o f s = (
  if_valid-get (λ o. o.pair_seconds) info (take_delivery info d) o
      ∙ elim (Bool-cases info.valid_data) [ inl e ↦ rw e refl | inr e ↦ rw e refl ],
  if_valid-keeps (λ o. o.sliding_window) info (take_delivery info d) o refl ∙ s,
)
on_event-pair_seconds end_of_deliveries o f s = rw (prune_rate_window-still o s) (refl, s)
on_event-pair_seconds (count c info n) o f s = (
  if_valid-keeps (λ o. o.pair_seconds) info (take_count c info n) o refl,
  if_valid-keeps (λ o. o.sliding_window) info (take_count c info n) o refl ∙ s,
)
on_event-pair_seconds (lost info t) o f s = (
  if_valid-keeps (λ o. o.pair_seconds) info (take_lost info t) o refl,
  if_valid-keeps (λ o. o.sliding_window) info (take_lost info t) o refl ∙ s,
)
on_event-pair_seconds (physical info p) o f s = (
  if_valid-keeps (λ o. o.pair_seconds) info (take_physical info p) o refl,
  if_valid-keeps (λ o. o.sliding_window) info (take_physical info p) o refl ∙ s,
)
on_event-pair_seconds (rate_window true) o f s = absurd (ground arith)
on_event-pair_seconds (rate_window false) o f s = (
  ap (λ p. p.pair_seconds) (prune_rate_window-still _ refl),
  ap (λ p. p.sliding_window) (prune_rate_window-still _ refl),
)
on_event-pair_seconds (destinations d) o f s = (refl, s)

pub lookup-pair_seconds :
    (k : String × String) (es : List Event)
    → all is_one_shot es ≡ true
    → lookup k (run_events es new_observer).pair_seconds
      ≡ accumulate next_second
          (map (λ s. s.1) (keep_if (λ s. pair_same s.0 k) (collect delivered_samples es)))
          none
unfolding lookup
lookup-pair_seconds k es one_shot =
    rw
      (
        lookup-run_events_while is_one_shot IsStill (λ o. o.pair_seconds) delivered_samples
            (λ s. s.0) next_pair on_event-pair_seconds k es new_observer one_shot refl,
        accumulate-map next_second (λ s. s.1)
            (keep_if (λ s. pair_same s.0 k) (collect delivered_samples es)) none,
      )
      refl

pub pair_seconds-IsFilled :
    (es : List Event)
    → all is_one_shot es ≡ true
    → AllValues IsFilled (run_events es new_observer).pair_seconds
pair_seconds-IsFilled es one_shot =
    rw
      (run_events-updates is_one_shot IsStill (λ o. o.pair_seconds) delivered_samples (λ s. s.0)
        next_pair on_event-pair_seconds es new_observer one_shot refl)
      (update_each-AllValues (λ s. s.0) next_pair IsFilled (λ s. (next_second-first s.1.0 s.1.1).0)
        (λ s d h. (next_second-later s.1.0 s.1.1 d h).0) (collect delivered_samples es) [] tt)
