-- ===== src/Statistics/Observer/Runs.antt =====
-- A map of the observer that each event changes in the same way holds, at each key, what the
-- samples of that key made of it over the run.
use fastdds_transport_viz.Prelude.{
  Bool, true, List, [], ◌∷◌, Option, keep_if, collect, all, All-all, if◌then◌else◌, ◌≡◌, refl, inl,
  inr, arith, Bool-cases, Option-cases,
}
use fastdds_transport_viz.Prelude.OrderedMap.{Key, lookup}
use fastdds_transport_viz.Prelude.OrderedMap.Updates.{
  update_each, update_each-append, accumulate, lookup-update_each,
}
use fastdds_transport_viz.Statistics.Samples.{Info}
use fastdds_transport_viz.Statistics.Observer.{
  Observer, Event, on_event, if_valid, run_events, prune_rate_window,
}

module _ {A : Type 0} (get : Observer → A) where
  -- A field that the samples of one kind do not change.
  pub if_valid-keeps :
      (info : Info) (take : Observer → Observer) (o : Observer)
      → get (take o) ≡ get o
      → get (if_valid info take o) ≡ get o
  if_valid-keeps info take o h = elim (Bool-cases info.valid_data) [
    | inl e ↦ rw e h
    | inr e ↦ rw e refl
  ]

  pub if_valid-get :
      (info : Info) (take : Observer → Observer) (o : Observer)
      → get (if_valid info take o) ≡ (if info.valid_data then get (take o) else get o)
  if_valid-get info take o = elim (Bool-cases info.valid_data) [
    | inl e ↦ rw e refl
    | inr e ↦ rw e refl
  ]

-- Pruning touches the windows alone.
pub prune_rate_window-keeps :
    (o : Observer)
    → ((prune_rate_window o).traffic ≡ o.traffic)
      × ((prune_rate_window o).lost ≡ o.lost)
      × ((prune_rate_window o).stats ≡ o.stats)
      × ((prune_rate_window o).heard ≡ o.heard)
      × ((prune_rate_window o).newest_second ≡ o.newest_second)
      × ((prune_rate_window o).sliding_window ≡ o.sliding_window)
unfolding prune_rate_window
prune_rate_window-keeps o = elim (Bool-cases o.sliding_window) [
  | inl e ↦ elim (Option-cases o.newest_second) [
    | inl n ↦ rw (e, n) (refl, refl, refl, refl, refl, refl)
    | inr (n, n_eq) ↦ rw (e, n_eq) (refl, refl, refl, refl, refl, refl)
  ]
  | inr e ↦ rw e (refl, refl, refl, refl, refl, refl)
]

-- Events that each change one map of the observer in the same way, as long as they are `fine` and
-- the state `stays` so.
module _ {K V X : Type 0} ⦃key : Key K⦄ (fine : Event → Bool) (stays : Observer → Type 0)
    (get : Observer → List (K × V)) (of : Event → List X) (key_of : X → K) (step : X → Option V → V)
    (one : (e : Event) (o : Observer)
      → fine e ≡ true
      → stays o
      → (get (on_event e o) ≡ update_each key_of step (of e) (get o)) × stays (on_event e o)) where
  pub run_events-updates :
      (es : List Event) (o : Observer)
      → all fine es ≡ true
      → stays o
      → get (run_events es o) ≡ update_each key_of step (collect of es) (get o)
  unfolding run_events
  run_events-updates [] o f s = refl
  run_events-updates (e ∷ es) o f s =
      let (now, still) = one e o (ground arith) s in
      rw
        (
          run_events-updates es (on_event e o) (ground arith) still,
          now,
          update_each-append key_of step (of e) (collect of es) (get o),
        )
        refl

  pub lookup-run_events_while :
      (k : K) (es : List Event) (o : Observer)
      → all fine es ≡ true
      → stays o
      → lookup k (get (run_events es o))
        ≡ accumulate step (keep_if (λ x. key.same (key_of x) k) (collect of es)) (lookup k (get o))
  lookup-run_events_while k es o f s =
      rw (run_events-updates es o f s, lookup-update_each key_of step k (collect of es) (get o))
        refl

-- ... with no condition.
module _ {K V X : Type 0} ⦃key : Key K⦄ (get : Observer → List (K × V)) (of : Event → List X)
    (key_of : X → K) (step : X → Option V → V)
    (one : (e : Event) (o : Observer)
      → get (on_event e o) ≡ update_each key_of step (of e) (get o)) where
  pub lookup-run_events :
      (k : K) (es : List Event) (o : Observer)
      → lookup k (get (run_events es o))
        ≡ accumulate step (keep_if (λ x. key.same (key_of x) k) (collect of es)) (lookup k (get o))
  lookup-run_events k es o =
      lookup-run_events_while (λ e. true) (λ o. Unit) get of key_of step (λ e o f s. (one e o, tt))
        k es o (All-all (λ e. true) es (λ e m. refl)) tt
