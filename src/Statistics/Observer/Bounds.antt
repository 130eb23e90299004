-- ===== src/Statistics/Observer/Bounds.antt =====
-- The deques of the rate window: an invariant of every run, and the bound that pruning gives.
use fastdds_transport_viz.Prelude.{
  ℕ, true, List, [], ◌∷◌, Option, none, some, All, ◌≡◌, refl, sym, inl, inr, arith, Bool-cases,
  Option-cases,
}
use fastdds_transport_viz.Prelude.OrderedMap.{Key, lookup}
use fastdds_transport_viz.Prelude.OrderedMap.Updates.{update_at}
use fastdds_transport_viz.Prelude.OrderedMap.Values.{
  AllValues, AllValues-map, insert-AllValues, AllValues-lookup,
}
use fastdds_transport_viz.Prelude.Keys.{text_key, text_pair_key}
use fastdds_transport_viz.Statistics.Samples.{Info, Delivery}
use fastdds_transport_viz.Statistics.Windows.{
  PairSecond, WriterSecond, prune_map, seconds_of, next_pair_seconds, next_writer_seconds,
  add_to_back,
}
use fastdds_transport_viz.Statistics.Windows.Rising.{
  Within, RisingFrom, IsWindow, add_to_back-starts, add_to_back-IsWindow,
}
use fastdds_transport_viz.Statistics.Windows.Pruned.{
  IsPruned, prune_map-IsWindow, prune_map-IsPruned,
}
use fastdds_transport_viz.Statistics.Observer.{
  Observer, new_observer, Event, sent, delivery, end_of_deliveries, count, lost, physical,
  rate_window, destinations, on_event, if_valid, run_events, take_sent, take_lost, take_count,
  take_delivery, take_physical, prune_rate_window, newest, pair_of,
}

abbrev pub pair_sec : PairSecond → ℕ
pair_sec s = s.sec

abbrev pub writer_sec : WriterSecond → ℕ
writer_sec s = s.sec

-- Every deque of the observer is one of a window that ends at the newest second.
pub record IsWindowed (o : Observer) : Type 0 where
  pub pairs : AllValues (IsWindow pair_sec o.newest_second) o.pair_seconds
  pub writers : AllValues (IsWindow writer_sec o.newest_second) o.writer_seconds

Within-newest : (sec t : ℕ) (n : Option ℕ) → Within n t → Within (newest sec n) t
Within-newest sec t none w = elim w [ ]
Within-newest sec t (some n) w = omega arith

newest-Within : (sec : ℕ) (n : Option ℕ) → Within (newest sec n) sec
newest-Within sec none = omega arith
newest-Within sec (some n) = omega arith

module _ {S : Type 0} (sec_of : S → ℕ) where
  All-map : (P Q : S → Type 0) (d : List S) → ((s : S) → P s → Q s) → All P d → All Q d
  All-map P Q [] f h = tt
  All-map P Q (s ∷ ss) f (p, h) = (f s p, All-map P Q ss f h)

  IsWindow-newest :
      (sec : ℕ) (n : Option ℕ) (d : List S) → IsWindow sec_of n d → IsWindow sec_of (newest sec n) d
  IsWindow-newest sec n d (filled, rising, within) = (
    filled,
    rising,
    All-map (λ s. Within n (sec_of s)) (λ s. Within (newest sec n) (sec_of s)) d
        (λ s. Within-newest sec (sec_of s) n) within,
  )

  module _ {K : Type 0} ⦃key : Key K⦄ (sec : ℕ) (fresh : S) (join : S → S)
      (at_sec : sec_of fresh ≡ sec) (joined : (s : S) → sec_of (join s) ≡ sec_of s) where
    -- A sample keeps the deques of a map windows, of its own second at least.
    update_at-IsWindow :
        (k : K) (n : Option ℕ) (m : List (K × List S))
        → AllValues (IsWindow sec_of n) m
        → AllValues
            (IsWindow sec_of (newest sec n))
            (update_at k (λ o. add_to_back sec_of sec fresh join (seconds_of o)) m)
    update_at-IsWindow k n m h =
        let later =
          AllValues-map (IsWindow sec_of n) (IsWindow sec_of (newest sec n)) m
            (IsWindow-newest sec n) h in
        insert-AllValues (IsWindow sec_of (newest sec n)) k _ m
          (elim (Option-cases (lookup k m)) [
            | inl absent ↦ rw absent (
                add_to_back-starts sec_of sec fresh join at_sec joined (newest sec n)
                  (newest-Within sec n))
            | inr (d, found) ↦ rw found (
                add_to_back-IsWindow sec_of sec fresh join at_sec joined (newest sec n) d
                  (newest-Within sec n)
                  (AllValues-lookup (IsWindow sec_of (newest sec n)) k d m later found))
          ])
          later

if_valid-IsWindowed :
    (info : Info) (take : Observer → Observer) (o : Observer)
    → IsWindowed (take o)
    → IsWindowed o
    → IsWindowed (if_valid info take o)
if_valid-IsWindowed info take o taken kept = elim (Bool-cases info.valid_data) [
  | inl e ↦ rw e taken
  | inr e ↦ rw e kept
]

same_windows :
    (o p : Observer)
    → p.pair_seconds ≡ o.pair_seconds
    → p.writer_seconds ≡ o.writer_seconds
    → p.newest_second ≡ o.newest_second
    → IsWindowed o
    → IsWindowed p
same_windows o p a b c h = record { pairs = rw (a, c) h.pairs; writers = rw (b, c) h.writers }

take_delivery-IsWindowed :
    (info : Info) (d : Delivery) (o : Observer) → IsWindowed o → IsWindowed (take_delivery info d o)
unfolding take_delivery next_pair_seconds next_writer_seconds
take_delivery-IsWindowed info d o h = record {
  pairs =
      update_at-IsWindow pair_sec info.seconds _ _ refl (λ s. refl) (pair_of d) o.newest_second
        o.pair_seconds h.pairs;
  writers =
      update_at-IsWindow writer_sec info.seconds _ _ refl (λ s. refl) info.publisher_prefix
        o.newest_second o.writer_seconds h.writers;
}

module _ {K S : Type 0} (sec_of : S → ℕ) where
  prune_map-windows :
      (n : Option ℕ) (oldest : ℕ) (m : List (K × List S))
      → AllValues (IsWindow sec_of n) m
      → AllValues (IsWindow sec_of n) (prune_map sec_of oldest m)
  prune_map-windows n oldest m h =
      AllValues-map (λ d. IsWindow sec_of n d × RisingFrom sec_of oldest d) (IsWindow sec_of n)
        (prune_map sec_of oldest m) (λ d w. w.0) (prune_map-IsWindow sec_of n oldest m h)

prune_rate_window-IsWindowed : (o : Observer) → IsWindowed o → IsWindowed (prune_rate_window o)
unfolding prune_rate_window
prune_rate_window-IsWindowed o h = elim (Bool-cases o.sliding_window) [
  | inl e ↦ elim (Option-cases o.newest_second) [
    | inl n ↦ rw (e, n) (same_windows o _ refl refl (sym n) h)
    | inr (latest, n) ↦
        rw (e, n)
          (record {
            pairs = prune_map-windows pair_sec (some latest) _ _ (rw n at h.pairs);
            writers = prune_map-windows writer_sec (some latest) _ _ (rw n at h.writers);
          })
  ]
  | inr e ↦ rw e (same_windows o _ refl refl refl h)
]

pub on_event-IsWindowed : (e : Event) (o : Observer) → IsWindowed o → IsWindowed (on_event e o)
unfolding on_event take_sent take_lost take_count take_physical
on_event-IsWindowed (sent info t) o h =
    if_valid-IsWindowed info (take_sent info t) o (same_windows o _ refl refl refl h) h
on_event-IsWindowed (delivery info d) o h =
    if_valid-IsWindowed info (take_delivery info d) o (take_delivery-IsWindowed info d o h) h
on_event-IsWindowed end_of_deliveries o h = prune_rate_window-IsWindowed o h
on_event-IsWindowed (count c info n) o h =
    if_valid-IsWindowed info (take_count c info n) o (same_windows o _ refl refl refl h) h
on_event-IsWindowed (lost info t) o h =
    if_valid-IsWindowed info (take_lost info t) o (same_windows o _ refl refl refl h) h
on_event-IsWindowed (physical info p) o h =
    if_valid-IsWindowed info (take_physical info p) o (same_windows o _ refl refl refl h) h
on_event-IsWindowed (rate_window b) o h =
    prune_rate_window-IsWindowed _ (same_windows o _ refl refl refl h)
on_event-IsWindowed (destinations d) o h = same_windows o _ refl refl refl h

pub run_events-IsWindowed :
    (es : List Event) (o : Observer) → IsWindowed o → IsWindowed (run_events es o)
unfolding run_events
run_events-IsWindowed [] o h = h
run_events-IsWindowed (e ∷ es) o h =
    run_events-IsWindowed es (on_event e o) (on_event-IsWindowed e o h)

-- After any run and a pruning under the sliding window, every pair and every writer that is left has
-- at least one second and at most five, all of them within the window that ends at the newest second.
pub prune_rate_window-IsPruned :
    (es : List Event) (latest : ℕ)
    → (run_events es new_observer).sliding_window ≡ true
    → (run_events es new_observer).newest_second ≡ some latest
    → AllValues
        (IsPruned pair_sec latest)
        (prune_rate_window (run_events es new_observer)).pair_seconds
      × AllValues
          (IsPruned writer_sec latest)
          (prune_rate_window (run_events es new_observer)).writer_seconds
unfolding prune_rate_window
prune_rate_window-IsPruned es latest sliding n =
    let h = run_events-IsWindowed es new_observer (record { pairs = tt; writers = tt }) in
    rw (sliding, n)
      (
        prune_map-IsPruned pair_sec latest _ (rw n at h.pairs),
        prune_map-IsPruned writer_sec latest _ (rw n at h.writers),
      )
