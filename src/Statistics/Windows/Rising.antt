-- ===== src/Statistics/Windows/Rising.antt =====
-- The seconds of a deque rise, so a window of a few seconds holds few of them.
use fastdds_transport_viz.Prelude.{
  ℕ, ◌+◌, ◌≤◌, suc, false, List, [], ◌∷◌, Option, none, some, length, is_empty, All, ltb, ◌≡◌, refl,
  inl, inr, arith, Bool-cases,
}
use fastdds_transport_viz.Statistics.Windows.{add_to_back, pop_old}

-- A second that is not after the newest one.
abbrev pub Within : Option ℕ → ℕ → Type 0
Within none sec = ⊥
Within (some newest) sec = sec ≤ newest

module _ {S : Type 0} (sec_of : S → ℕ) where
  abbrev pub RisingFrom : ℕ → List S → Type 0
  RisingFrom low [] = Unit
  RisingFrom low (s ∷ ss) = (low ≤ sec_of s) × RisingFrom (suc (sec_of s)) ss

  -- A deque of a map: not empty, its seconds rise, and none is after the newest one.
  abbrev pub IsWindow : Option ℕ → List S → Type 0
  IsWindow newest d = (is_empty d ≡ false) × RisingFrom 0 d × All (λ s. Within newest (sec_of s)) d

  pub RisingFrom-length :
      (low high : ℕ) (d : List S)
      → low ≤ suc high
      → RisingFrom low d
      → All (λ s. sec_of s ≤ high) d
      → low + length d ≤ suc high
  RisingFrom-length low high [] bound rising within = omega arith
  RisingFrom-length low high (s ∷ ss) bound (after, rising) (up_to, within) =
      omega (arith, RisingFrom-length (suc (sec_of s)) high ss (omega arith) rising within)

  pub pop_old-RisingFrom :
      (low oldest : ℕ) (d : List S) → RisingFrom low d → RisingFrom oldest (pop_old sec_of oldest d)
  unfolding pop_old
  pop_old-RisingFrom low oldest [] rising = tt
  pop_old-RisingFrom low oldest (s ∷ ss) (after, rising) =
      elim (Bool-cases (ltb (sec_of s) oldest)) [
        | inl e ↦ rw e (pop_old-RisingFrom (suc (sec_of s)) oldest ss rising)
        | inr e ↦ rw e (ground arith, rising)
      ]

  pub pop_old-All :
      (P : S → Type 0) (oldest : ℕ) (d : List S) → All P d → All P (pop_old sec_of oldest d)
  unfolding pop_old
  pop_old-All P oldest [] h = tt
  pop_old-All P oldest (s ∷ ss) (p, h) = elim (Bool-cases (ltb (sec_of s) oldest)) [
    | inl e ↦ rw e (pop_old-All P oldest ss h)
    | inr e ↦ rw e (p, h)
  ]

  module _ (sec : ℕ) (fresh : S) (join : S → S) (at_sec : sec_of fresh ≡ sec)
      (joined : (s : S) → sec_of (join s) ≡ sec_of s) where
    add_to_back-rises :
        (low : ℕ) (s : S) (ss : List S)
        → RisingFrom low (s ∷ ss)
        → RisingFrom low (add_to_back sec_of sec fresh join (s ∷ ss))
    unfolding add_to_back
    add_to_back-rises low s [] (after, rising) = elim (Bool-cases (ltb (sec_of s) sec)) [
      | inl e ↦ rw e (after, (rw at_sec (ground arith), tt))
      | inr e ↦ rw (e, joined s) (after, tt)
    ]
    add_to_back-rises low s (t ∷ ss) (after, rising) =
        (after, add_to_back-rises (suc (sec_of s)) t ss rising)

    add_to_back-All :
        (P : ℕ → Type 0) (d : List S)
        → P sec
        → All (λ s. P (sec_of s)) d
        → All (λ s. P (sec_of s)) (add_to_back sec_of sec fresh join d)
    unfolding add_to_back
    add_to_back-All P [] p h = rw at_sec (p, tt)
    add_to_back-All P (s ∷ []) p (q, h) = elim (Bool-cases (ltb (sec_of s) sec)) [
      | inl e ↦ rw (e, at_sec) (q, (p, tt))
      | inr e ↦ rw (e, joined s) (q, tt)
    ]
    add_to_back-All P (s ∷ t ∷ ss) p (q, h) = (q, add_to_back-All P (t ∷ ss) p h)

    add_to_back-filled : (d : List S) → is_empty (add_to_back sec_of sec fresh join d) ≡ false
    unfolding add_to_back
    add_to_back-filled [] = refl
    add_to_back-filled (s ∷ []) = elim (Bool-cases (ltb (sec_of s) sec)) [
      | inl e ↦ rw e refl
      | inr e ↦ rw e refl
    ]
    add_to_back-filled (s ∷ t ∷ ss) = refl

    -- A sample keeps a window one, or starts one.
    pub add_to_back-starts :
        (newest : Option ℕ)
        → Within newest sec
        → IsWindow newest (add_to_back sec_of sec fresh join [])
    unfolding add_to_back
    add_to_back-starts newest w = rw at_sec (refl, (ground arith, tt), (w, tt))

    pub add_to_back-IsWindow :
        (newest : Option ℕ) (d : List S)
        → Within newest sec
        → IsWindow newest d
        → IsWindow newest (add_to_back sec_of sec fresh join d)
    add_to_back-IsWindow newest [] w h = add_to_back-starts newest w
    add_to_back-IsWindow newest (s ∷ ss) w (filled, rising, within) = (
      add_to_back-filled (s ∷ ss),
      add_to_back-rises 0 s ss rising,
      add_to_back-All (Within newest) (s ∷ ss) w within,
    )
