-- ===== src/Statistics/Snapshot/Windows.antt =====
-- The delivery windows of a one-shot run, against the samples of HISTORY_LATENCY.
use fastdds_transport_viz.Prelude.{
  String, Bool, true, List, [], ◌∷◌, map, map-map, keep_if, collect, all, lt→ltb, ◌≡◌, refl, ◌∙◌,
  inl, inr, Bool-cases,
}
use fastdds_transport_viz.Prelude.OrderedMap.{lookup}
use fastdds_transport_viz.Prelude.OrderedMap.Values.{AllValues}
use fastdds_transport_viz.Prelude.Keys.{text_pair_key, pair_same}
use fastdds_transport_viz.Statistics.Windows.{PairSecond, no_samples, reduce_pair}
use fastdds_transport_viz.Statistics.Windows.Reduced.{
  IsFilled, reduced, accumulate-reduced, window_of, reduce_pair-IsFilled,
}
use fastdds_transport_viz.Statistics.Listener.{Listener}
use fastdds_transport_viz.Statistics.Observer.{new_observer, Event, run_events}
use fastdds_transport_viz.Statistics.Observer.Deliveries.{
  is_one_shot, delivered_samples, lookup-pair_seconds, pair_seconds-IsFilled,
}
use fastdds_transport_viz.Statistics.Snapshot.{delivery_windows, report}

lookup-delivery_windows :
    (k : String × String) (m : List ((String × String) × List PairSecond))
    → AllValues IsFilled m
    → lookup k (delivery_windows m) ≡ reduced (lookup k m)
unfolding lookup delivery_windows
lookup-delivery_windows k [] h = refl
lookup-delivery_windows k ((j, d) ∷ m) (filled, h) =
    rw (lt→ltb 0 (reduce_pair d no_samples).samples (reduce_pair-IsFilled d filled))
      (elim (Bool-cases (pair_same j k)) [
        | inl e ↦ rw e refl
        | inr e ↦ rw e (lookup-delivery_windows k m h)
      ])

-- The reported window of a pair, when the rate window never slid: the number of its valid samples
-- in the run, the least and the greatest of their timestamps; there is none without a sample.
pub report-delivery_window :
    (topic : String) (instance_limit : Bool) (l : Listener) (k : String × String) (es : List Event)
    → all is_one_shot es ≡ true
    → lookup k (report topic instance_limit l (run_events es new_observer)).delivery_window
      ≡ window_of (map (λ s. s.1.1) (keep_if (λ s. pair_same s.0 k) (collect delivered_samples es)))
unfolding report
report-delivery_window topic instance_limit l k es one_shot =
    rw
      (
        lookup-delivery_windows k (run_events es new_observer).pair_seconds
            (pair_seconds-IsFilled es one_shot),
        lookup-pair_seconds k es one_shot,
      )
      (accumulate-reduced
          (map (λ s. s.1) (keep_if (λ s. pair_same s.0 k) (collect delivered_samples es)))
        ∙ rw
            (map-map (λ x. x.1) (λ s. s.1)
              (keep_if (λ s. pair_same s.0 k) (collect delivered_samples es)))
            refl)
