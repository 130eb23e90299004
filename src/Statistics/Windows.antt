-- ===== src/Statistics/Windows.antt =====
-- stats_observer.cpp: the samples of HISTORY_LATENCY, per second of their timestamps. A deque is a
-- list with its back at the end.
pub mod Rising
pub mod Pruned
pub mod Reduced
use fastdds_transport_viz.Prelude.{
  ℕ, ◌+◌, ◌-◌, suc, min, max, Bool, true, false, ◌&&◌, List, [], ◌∷◌, Option, none, some,
  if◌then◌else◌, ltb, ◌==◌, is_empty,
}
use fastdds_transport_viz.Model.Stats.{DeliveryWindow}

abbrev pub stats_rate_window_seconds : ℕ
stats_rate_window_seconds = 5

pub record PairSecond : Type 0 where
  pub sec : ℕ
  pub w : DeliveryWindow

pub record WriterSecond : Type 0 where
  pub sec : ℕ
  pub min_seq : ℕ
  pub max_seq : ℕ
  pub samples : ℕ

module _ {S : Type 0} (sec_of : S → ℕ) where
  -- A later second than the one at the back is a new entry; any other sample joins the back.
  pub add_to_back : ℕ → S → (S → S) → List S → List S
  add_to_back sec fresh join [] = fresh ∷ []
  add_to_back sec fresh join (s ∷ []) = if ltb (sec_of s) sec then s ∷ fresh ∷ [] else join s ∷ []
  add_to_back sec fresh join (s ∷ t ∷ ss) = s ∷ add_to_back sec fresh join (t ∷ ss)

  -- `while (!d.empty() && d.front().sec < oldest) {d.pop_front();}`
  pub pop_old : ℕ → List S → List S
  pop_old oldest [] = []
  pop_old oldest (s ∷ ss) = if ltb (sec_of s) oldest then pop_old oldest ss else s ∷ ss

  -- The loop over a map of deques, which drops those that it empties.
  pub prune_map : {K : Type 0} → ℕ → List (K × List S) → List (K × List S)
  prune_map oldest [] = []
  prune_map oldest ((k, d) ∷ m) =
      let rest = prune_map oldest m in
      let left = pop_old oldest d in if is_empty left then rest else (k, left) ∷ rest

-- `add`
abbrev pub add_sample : ℕ → DeliveryWindow → DeliveryWindow
add_sample ts b = record {
  samples = b.samples + 1;
  first_s = min b.first_s ts;
  last_s = max b.last_s ts;
}

abbrev pub one_sample : ℕ → DeliveryWindow
one_sample ts = record { samples = 1; first_s = ts; last_s = ts }

abbrev pub seconds_of : {S : Type 0} → Option (List S) → List S
seconds_of none = []
seconds_of (some d) = d

unfoldable pub next_pair_seconds : ℕ → ℕ → Option (List PairSecond) → List PairSecond
next_pair_seconds sec ts o =
    add_to_back (λ s. s.sec) sec (record { sec = sec; w = one_sample ts })
      (λ s. record s { w = add_sample ts s.w }) (seconds_of o)

abbrev pub add_seq : ℕ → WriterSecond → WriterSecond
add_seq seq b = record b {
  samples = b.samples + 1;
  min_seq = min b.min_seq seq;
  max_seq = max b.max_seq seq;
}

unfoldable pub next_writer_seconds : ℕ → ℕ → Option (List WriterSecond) → List WriterSecond
next_writer_seconds sec seq o =
    add_to_back (λ s. s.sec) sec (record { sec = sec; min_seq = seq; max_seq = seq; samples = 1 })
      (add_seq seq) (seconds_of o)

-- `newest_second_ - kStatsRateWindowSeconds + 1`. A second below 0 is older than every sample, as 0
-- is.
abbrev pub oldest_second : ℕ → ℕ
oldest_second newest = newest + 1 - stats_rate_window_seconds

abbrev pub no_samples : DeliveryWindow
no_samples = record { samples = 0; first_s = 0; last_s = 0 }

-- One round of the reduction of a pair's seconds.
abbrev pub merge_second : DeliveryWindow → PairSecond → DeliveryWindow
merge_second w s = if w.samples == 0 then s.w else record {
  samples = w.samples + s.w.samples;
  first_s = min w.first_s s.w.first_s;
  last_s = max w.last_s s.w.last_s;
}

pub reduce_pair : List PairSecond → DeliveryWindow → DeliveryWindow
reduce_pair [] w = w
reduce_pair (s ∷ ss) w = reduce_pair ss (merge_second w s)

-- The three local variables of the reduction of a writer's seconds.
abbrev merge_seqs : WriterSecond → WriterSecond → WriterSecond
merge_seqs s w =
    let start =
      if w.samples == 0 then record w { min_seq = s.min_seq; max_seq = s.max_seq } else w in
    record start {
      samples = w.samples + s.samples;
      min_seq = min start.min_seq s.min_seq;
      max_seq = max start.max_seq s.max_seq;
    }

pub reduce_writer : List WriterSecond → WriterSecond → WriterSecond
reduce_writer [] w = w
reduce_writer (s ∷ ss) w = reduce_writer ss (merge_seqs s w)
