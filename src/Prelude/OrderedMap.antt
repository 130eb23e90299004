-- ===== src/Prelude/OrderedMap.antt =====
-- std::map as a list of entries in key order.
pub mod Totals
pub mod Updates
pub mod Values
pub mod Distinct
use mathlib.Core.Path.{◌≡◌, refl}
use mathlib.Core.Bool.{Bool, true, false, ◌||◌}
use mathlib.Core.Option.{Option, none, some}
use mathlib.Core.List.{List, [], ◌∷◌}
use mathlib.Core.Logic.{◌↔◌}
use native.Mathlib.Omega.{arith}
use fastdds_transport_viz.Prelude.Tests.{if◌then◌else◌}

-- What the map asks of a key type: the equivalence and the order of its comparison.
pub record Key {ℓ} (K : Type ℓ) : Type ℓ where
  pub same : K → K → Bool
  pub before : K → K → Bool
  pub same_refl : (k : K) → same k k ≡ true
  pub same_sym : (j k : K) → same j k ≡ true → same k j ≡ true
  pub same_trans : (i j k : K) → same i j ≡ true → same j k ≡ true → same i k ≡ true

module _ {ℓ κ} {K : Type ℓ} {V : Type κ} ⦃key : Key K⦄ where
  -- `find(k)`
  unfoldable pub lookup : K → List (K × V) → Option V
  lookup k [] = none
  lookup k ((j, v) ∷ m) = if key.same j k then some v else lookup k m

  -- `count(k) > 0`
  unfoldable pub has_key : K → List (K × V) → Bool
  has_key k [] = false
  has_key k ((j, v) ∷ m) = key.same j k || has_key k m

  -- The value of an entry that is there: the entry keeps its key.
  unfoldable pub replace : K → V → List (K × V) → List (K × V)
  replace k v [] = []
  replace k v ((j, w) ∷ m) = if key.same j k then (j, v) ∷ m else (j, w) ∷ replace k v m

  -- A new entry, before the first one with a later key.
  unfoldable pub place : K → V → List (K × V) → List (K × V)
  place k v [] = (k, v) ∷ []
  place k v ((j, w) ∷ m) = if key.before k j then (k, v) ∷ (j, w) ∷ m else (j, w) ∷ place k v m

  -- `m[k] = v`
  unfoldable pub insert : K → V → List (K × V) → List (K × V)
  insert k v m = if has_key k m then replace k v m else place k v m

  lookup-replace :
      (k j : K) (v : V) (m : List (K × V))
      → has_key k m ≡ true
      → lookup j (replace k v m) ≡ (if key.same k j then some v else lookup j m)
  unfolding lookup replace has_key
  lookup-replace k j v [] h = ground arith
  lookup-replace k j v ((i, w) ∷ m) h = ground (
    arith,
    lookup-replace k j v m,
    key.same_sym i k,
    key.same_trans k i j,
    key.same_trans i k j,
    key.same_sym i j,
    key.same_trans k j i,
    key.same_sym k i,
  )

  lookup-place :
      (k j : K) (v : V) (m : List (K × V))
      → has_key k m ≡ false
      → lookup j (place k v m) ≡ (if key.same k j then some v else lookup j m)
  unfolding lookup place has_key
  lookup-place k j v [] h = refl
  lookup-place k j v ((i, w) ∷ m) h =
      ground (arith, lookup-place k j v m, key.same_sym k j, key.same_trans i j k)

  pub lookup-insert :
      (k j : K) (v : V) (m : List (K × V))
      → lookup j (insert k v m) ≡ (if key.same k j then some v else lookup j m)
  unfolding insert
  lookup-insert k j v m = ground (arith, lookup-replace k j v m, lookup-place k j v m)

  pub has_key-lookup : (k : K) (m : List (K × V)) → (has_key k m ≡ false) ↔ (lookup k m ≡ none)
  unfolding has_key lookup
  has_key-lookup k [] = ((λ h. refl), (λ h. refl))
  has_key-lookup k ((j, v) ∷ m) = ground (arith, has_key-lookup k m)

  -- No key stands in two entries.
  abbrev pub IsDistinct : List (K × V) → Type 0
  IsDistinct [] = Unit
  IsDistinct ((j, v) ∷ m) = (has_key j m ≡ false) × IsDistinct m

  has_key-replace : (j k : K) (v : V) (m : List (K × V)) → has_key j (replace k v m) ≡ has_key j m
  unfolding has_key replace
  has_key-replace j k v [] = refl
  has_key-replace j k v ((i, w) ∷ m) = ground (arith, has_key-replace j k v m)

  has_key-place :
      (j k : K) (v : V) (m : List (K × V)) → has_key j (place k v m) ≡ (key.same k j || has_key j m)
  unfolding has_key place
  has_key-place j k v [] = refl
  has_key-place j k v ((i, w) ∷ m) = ground (arith, has_key-place j k v m)

  replace-IsDistinct :
      (k : K) (v : V) (m : List (K × V)) → IsDistinct m → IsDistinct (replace k v m)
  unfolding replace
  replace-IsDistinct k v [] h = tt
  replace-IsDistinct k v ((i, w) ∷ m) (n, h) =
      ground (arith, replace-IsDistinct k v m h, has_key-replace i k v m)

  place-IsDistinct :
      (k : K) (v : V) (m : List (K × V))
      → has_key k m ≡ false
      → IsDistinct m
      → IsDistinct (place k v m)
  unfolding place has_key
  place-IsDistinct k v [] e h = (refl, tt)
  place-IsDistinct k v ((i, w) ∷ m) e (n, h) =
      ground (arith, place-IsDistinct k v m, has_key-place i k v m, key.same_sym k i)

  pub insert-IsDistinct :
      (k : K) (v : V) (m : List (K × V)) → IsDistinct m → IsDistinct (insert k v m)
  unfolding insert
  insert-IsDistinct k v m h = ground (arith, replace-IsDistinct k v m h, place-IsDistinct k v m)
