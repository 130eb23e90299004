-- ===== src/Statistics/Windows/Reduced.antt =====
-- The reduction of a pair's seconds to one window, against the timestamps of its samples.
use fastdds_transport_viz.Prelude.{
  ℕ, ◌+◌, ◌≤◌, suc, min, max, false, List, [], ◌∷◌, Option, none, some, length, All, is_empty, map,
  ltb, ◌≡◌, refl, ap, ◌∙◌, inl, inr, arith, Bool-cases,
}
use fastdds_transport_viz.Prelude.OrderedMap.Updates.{accumulate}
use fastdds_transport_viz.Model.Stats.{DeliveryWindow}
use fastdds_transport_viz.Statistics.Windows.{
  PairSecond, add_to_back, add_sample, one_sample, next_pair_seconds, merge_second, reduce_pair,
  no_samples,
}

-- Seconds of which each has a sample.
abbrev pub IsCounted : List PairSecond → Type 0
IsCounted = All (λ s. 1 ≤ s.w.samples)

abbrev second_at : ℕ → ℕ → PairSecond
second_at sec ts = record { sec = sec; w = one_sample ts }

abbrev joined : ℕ → PairSecond → PairSecond
joined ts s = record s { w = add_sample ts s.w }

abbrev pair_sec : PairSecond → ℕ
pair_sec s = s.sec

merge_second-fresh :
    (sec ts : ℕ) (w : DeliveryWindow)
    → 1 ≤ w.samples
    → merge_second w (second_at sec ts) ≡ add_sample ts w
merge_second-fresh sec ts w h = ground arith

merge_second-joined :
    (ts : ℕ) (w : DeliveryWindow) (s : PairSecond)
    → merge_second w (joined ts s) ≡ add_sample ts (merge_second w s)
merge_second-joined ts w s = ground arith

merge_second-counted :
    (w : DeliveryWindow) (s : PairSecond) → 1 ≤ s.w.samples → 1 ≤ (merge_second w s).samples
merge_second-counted w s h = ground arith

reduce_pair-add :
    (sec ts : ℕ) (s : PairSecond) (ss : List PairSecond) (w : DeliveryWindow)
    → IsCounted (s ∷ ss)
    → reduce_pair (add_to_back pair_sec sec (second_at sec ts) (joined ts) (s ∷ ss)) w
      ≡ add_sample ts (reduce_pair (s ∷ ss) w)
unfolding add_to_back reduce_pair
reduce_pair-add sec ts s [] w (c, h) = elim (Bool-cases (ltb s.sec sec)) [
  | inl e ↦ rw e (merge_second-fresh sec ts (merge_second w s) (merge_second-counted w s c))
  | inr e ↦ rw e (merge_second-joined ts w s)
]
reduce_pair-add sec ts s (t ∷ ss) w (c, h) = reduce_pair-add sec ts t ss (merge_second w s) h

-- The least and the greatest of a number and a list.
abbrev pub least : ℕ → List ℕ → ℕ
least t [] = t
least t (u ∷ us) = least (min t u) us

abbrev pub greatest : ℕ → List ℕ → ℕ
greatest t [] = t
greatest t (u ∷ us) = greatest (max t u) us

-- The window of the timestamps of a pair's samples.
abbrev pub window_of : List ℕ → Option DeliveryWindow
window_of [] = none
window_of (t ∷ ts) =
    some (record { samples = suc (length ts); first_s = least t ts; last_s = greatest t ts })

-- A sample is a second and a timestamp.
abbrev pub next_second : ℕ × ℕ → Option (List PairSecond) → List PairSecond
next_second (sec, ts) = next_pair_seconds sec ts

add_to_back-IsCounted :
    (sec ts : ℕ) (d : List PairSecond)
    → IsCounted d
    → IsCounted (add_to_back pair_sec sec (second_at sec ts) (joined ts) d)
unfolding add_to_back
add_to_back-IsCounted sec ts [] h = (omega arith, tt)
add_to_back-IsCounted sec ts (s ∷ []) (c, h) = elim (Bool-cases (ltb s.sec sec)) [
  | inl e ↦ rw e (c, (omega arith, tt))
  | inr e ↦ rw e (omega arith, tt)
]
add_to_back-IsCounted sec ts (s ∷ t ∷ ss) (c, h) = (c, add_to_back-IsCounted sec ts (t ∷ ss) h)

-- A deque with samples in each second.
abbrev pub IsFilled : List PairSecond → Type 0
IsFilled d = (is_empty d ≡ false) × IsCounted d

add_to_back-filled :
    (sec ts : ℕ) (d : List PairSecond)
    → is_empty (add_to_back pair_sec sec (second_at sec ts) (joined ts) d) ≡ false
unfolding add_to_back
add_to_back-filled sec ts [] = refl
add_to_back-filled sec ts (s ∷ []) = elim (Bool-cases (ltb s.sec sec)) [
  | inl e ↦ rw e refl
  | inr e ↦ rw e refl
]
add_to_back-filled sec ts (s ∷ t ∷ ss) = refl

pub next_second-first :
    (sec ts : ℕ)
    → IsFilled (next_second (sec, ts) none)
      × (reduce_pair (next_second (sec, ts) none) no_samples ≡ one_sample ts)
unfolding next_pair_seconds add_to_back reduce_pair
next_second-first sec ts = ((refl, (omega arith, tt)), refl)

pub next_second-later :
    (sec ts : ℕ) (d : List PairSecond)
    → IsFilled d
    → IsFilled (next_second (sec, ts) (some d))
      × (reduce_pair (next_second (sec, ts) (some d)) no_samples
          ≡ add_sample ts (reduce_pair d no_samples))
unfolding next_pair_seconds
next_second-later sec ts [] (filled, h) = absurd (ground arith)
next_second-later sec ts (s ∷ ss) (filled, h) = (
  (add_to_back-filled sec ts (s ∷ ss), add_to_back-IsCounted sec ts (s ∷ ss) h),
  reduce_pair-add sec ts s ss no_samples h,
)

-- A window after more timestamps.
abbrev add_all : List ℕ → DeliveryWindow → DeliveryWindow
add_all [] w = w
add_all (t ∷ ts) w = add_all ts (add_sample t w)

add_all-window :
    (ts : List ℕ) (n first last : ℕ)
    → add_all ts (record { samples = n; first_s = first; last_s = last })
      ≡ record { samples = n + length ts; first_s = least first ts; last_s = greatest last ts }
add_all-window [] n first last =
    ap (λ m. record { samples = m; first_s = first; last_s = last }) (omega arith)
add_all-window (t ∷ ts) n first last =
    add_all-window ts (n + 1) (min first t) (max last t)
    ∙ ap
        (λ m. record {
          samples = m;
          first_s = least (min first t) ts;
          last_s = greatest (max last t) ts;
        })
        (omega arith)

-- The entry that the samples of a pair leave reduces to the window of their timestamps.
abbrev pub reduced : Option (List PairSecond) → Option DeliveryWindow
reduced none = none
reduced (some d) = some (reduce_pair d no_samples)

accumulate-later :
    (xs : List (ℕ × ℕ)) (d : List PairSecond)
    → IsFilled d
    → reduced (accumulate next_second xs (some d))
      ≡ some (add_all (map (λ x. x.1) xs) (reduce_pair d no_samples))
accumulate-later [] d h = refl
accumulate-later ((sec, ts) ∷ xs) d h =
    let (filled, e) = next_second-later sec ts d h in
    accumulate-later xs (next_second (sec, ts) (some d)) filled
    ∙ ap (λ w. some (add_all (map (λ x. x.1) xs) w)) e

pub accumulate-reduced :
    (xs : List (ℕ × ℕ)) → reduced (accumulate next_second xs none) ≡ window_of (map (λ x. x.1) xs)
accumulate-reduced [] = refl
accumulate-reduced ((sec, ts) ∷ xs) =
    let (filled, e) = next_second-first sec ts in
    accumulate-later xs (next_second (sec, ts) none) filled
    ∙ ap (λ w. some (add_all (map (λ x. x.1) xs) w)) e
    ∙ ap some (add_all-window (map (λ x. x.1) xs) 1 ts ts)
    ∙ ap
        (λ n. some (record {
          samples = n;
          first_s = least ts (map (λ x. x.1) xs);
          last_s = greatest ts (map (λ x. x.1) xs);
        }))
        (omega arith)

reduce_pair-samples :
    (d : List PairSecond) (w : DeliveryWindow)
    → IsCounted d
    → 1 ≤ w.samples
    → 1 ≤ (reduce_pair d w).samples
unfolding reduce_pair
reduce_pair-samples [] w h n = n
reduce_pair-samples (s ∷ ss) w (c, h) n =
    reduce_pair-samples ss (merge_second w s) h (merge_second-counted w s c)

pub reduce_pair-IsFilled :
    (d : List PairSecond) → IsFilled d → 1 ≤ (reduce_pair d no_samples).samples
unfolding reduce_pair
reduce_pair-IsFilled [] (filled, h) = absurd (ground arith)
reduce_pair-IsFilled (s ∷ ss) (filled, (c, h)) = reduce_pair-samples ss s.w h c
