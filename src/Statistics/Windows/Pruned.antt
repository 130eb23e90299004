-- ===== src/Statistics/Windows/Pruned.antt =====
-- Pruning leaves windows, and bounds their number of seconds.
use fastdds_transport_viz.Prelude.{
  ℕ, ◌≤◌, suc, false, List, [], ◌∷◌, Option, some, length, is_empty, All, ◌≡◌, inl, inr, arith,
  Bool-cases,
}
use fastdds_transport_viz.Prelude.OrderedMap.Values.{AllValues, AllValues-map}
use fastdds_transport_viz.Statistics.Windows.{
  pop_old, prune_map, oldest_second, stats_rate_window_seconds,
}
use fastdds_transport_viz.Statistics.Windows.Rising.{
  Within, RisingFrom, IsWindow, RisingFrom-length, pop_old-RisingFrom, pop_old-All,
}

module _ {S : Type 0} (sec_of : S → ℕ) where
  RisingFrom-earlier :
      (earlier low : ℕ) (d : List S)
      → earlier ≤ low
      → RisingFrom sec_of low d
      → RisingFrom sec_of earlier d
  RisingFrom-earlier earlier low [] bound h = tt
  RisingFrom-earlier earlier low (s ∷ ss) bound (after, h) = (omega arith, h)

  pop_old-IsWindow :
      (n : Option ℕ) (oldest : ℕ) (d : List S)
      → is_empty (pop_old sec_of oldest d) ≡ false
      → IsWindow sec_of n d
      → IsWindow sec_of n (pop_old sec_of oldest d)
  pop_old-IsWindow n oldest d left (filled, rising, within) = (
    left,
    RisingFrom-earlier 0 oldest (pop_old sec_of oldest d) (omega arith)
        (pop_old-RisingFrom sec_of 0 oldest d rising),
    pop_old-All sec_of (λ s. Within n (sec_of s)) oldest d within,
  )

  pub prune_map-IsWindow :
      {K : Type 0} (n : Option ℕ) (oldest : ℕ) (m : List (K × List S))
      → AllValues (IsWindow sec_of n) m
      → AllValues
          (λ d. IsWindow sec_of n d × RisingFrom sec_of oldest d)
          (prune_map sec_of oldest m)
  unfolding prune_map
  prune_map-IsWindow n oldest [] h = tt
  prune_map-IsWindow n oldest ((k, d) ∷ m) (w, h) =
      elim (Bool-cases (is_empty (pop_old sec_of oldest d))) [
        | inl e ↦ rw e (prune_map-IsWindow n oldest m h)
        | inr e ↦ rw e (
          (pop_old-IsWindow n oldest d e w, pop_old-RisingFrom sec_of 0 oldest d w.1),
          prune_map-IsWindow n oldest m h,
        )
      ]

  -- What the rate window may hold: at least a second, at most as many as it is long, and each of
  -- them within it.
  abbrev pub IsPruned : ℕ → List S → Type 0
  IsPruned newest d =
      (is_empty d ≡ false)
      × (length d ≤ stats_rate_window_seconds)
      × All (λ s. (oldest_second newest ≤ sec_of s) × (sec_of s ≤ newest)) d

  RisingFrom-All :
      (low high : ℕ) (d : List S)
      → RisingFrom sec_of low d
      → All (λ s. sec_of s ≤ high) d
      → All (λ s. (low ≤ sec_of s) × (sec_of s ≤ high)) d
  RisingFrom-All low high [] h w = tt
  RisingFrom-All low high (s ∷ ss) (after, h) (up_to, w) = (
    (after, up_to),
    RisingFrom-All low high ss (RisingFrom-earlier low (suc (sec_of s)) ss (omega arith) h) w,
  )

  window-IsPruned :
      (newest : ℕ) (d : List S)
      → IsWindow sec_of (some newest) d × RisingFrom sec_of (oldest_second newest) d
      → IsPruned newest d
  window-IsPruned newest d ((filled, rising, within), late) = (
    filled,
    ground
        (arith, RisingFrom-length sec_of (oldest_second newest) newest d (omega arith) late within),
    RisingFrom-All (oldest_second newest) newest d late within,
  )

  pub prune_map-IsPruned :
      {K : Type 0} (newest : ℕ) (m : List (K × List S))
      → AllValues (IsWindow sec_of (some newest)) m
      → AllValues (IsPruned newest) (prune_map sec_of (oldest_second newest) m)
  prune_map-IsPruned newest m h =
      AllValues-map
        (λ d. IsWindow sec_of (some newest) d × RisingFrom sec_of (oldest_second newest) d)
        (IsPruned newest) (prune_map sec_of (oldest_second newest) m) (window-IsPruned newest)
        (prune_map-IsWindow (some newest) (oldest_second newest) m h)
