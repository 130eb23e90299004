-- ===== src/Prelude/OrderedMap/Totals.antt =====
-- Sums over the values of a map.
use Prim.Native.Nat.{ℕ, ◌+◌, ◌≤◌}
use mathlib.Core.Path.{◌≡◌}
use mathlib.Core.Bool.{true}
use mathlib.Core.Option.{Option, none, some}
use mathlib.Core.Logic.{inl, inr}
use mathlib.Core.List.{List, [], ◌∷◌}
use native.Mathlib.Omega.{arith}
use fastdds_transport_viz.Prelude.Tests.{Bool-cases}
use fastdds_transport_viz.Prelude.OrderedMap.{
  Key, lookup, has_key, has_key-lookup, replace, place, insert,
}

-- A key that is not there counts nothing.
abbrev pub at {κ} : {V : Type κ} → (V → ℕ) → Option V → ℕ
at f none = 0
at f (some v) = f v

module _ {ℓ κ} {K : Type ℓ} {V : Type κ} ⦃key : Key K⦄ (f : V → ℕ) where
  abbrev pub total : List (K × V) → ℕ
  total [] = 0
  total ((k, v) ∷ m) = f v + total m

  total-replace :
      (k : K) (v : V) (m : List (K × V))
      → has_key k m ≡ true
      → total (replace k v m) + at f (lookup k m) ≡ total m + f v
  unfolding replace has_key lookup
  total-replace k v [] h = absurd (ground arith)
  total-replace k v ((j, w) ∷ m) h = elim (Bool-cases (key.same j k)) [
    | inl e ↦ rw e (omega arith)
    | inr e ↦ rw e (omega (arith, total-replace k v m (rw e at h)))
  ]

  total-place : (k : K) (v : V) (m : List (K × V)) → total (place k v m) ≡ total m + f v
  unfolding place
  total-place k v [] = omega arith
  total-place k v ((j, w) ∷ m) = elim (Bool-cases (key.before k j)) [
    | inl e ↦ rw e (omega arith)
    | inr e ↦ rw e (omega (arith, total-place k v m))
  ]

  -- A write adds the new value and takes out the old one.
  pub total-insert :
      (k : K) (v : V) (m : List (K × V)) → total (insert k v m) + at f (lookup k m) ≡ total m + f v
  unfolding insert
  total-insert k v m = elim (Bool-cases (has_key k m)) [
    | inl h ↦ rw h (total-replace k v m h)
    | inr h ↦ rw (h, (has_key-lookup k m).0 h) (omega (arith, total-place k v m))
  ]

  -- No entry exceeds the sum.
  pub at_bounded : (k : K) (m : List (K × V)) → at f (lookup k m) ≤ total m
  unfolding lookup
  at_bounded k [] = omega arith
  at_bounded k ((j, w) ∷ m) = ground (arith, at_bounded k m)
