-- ===== src/Prelude/OrderedMap/Updates.antt =====
-- Maps that a loop fills: each element changes the entry of its key; and entries that go away.
use mathlib.Core.Path.{◌≡◌, refl}
use mathlib.Core.Bool.{true, not, ◌&&◌, ◌||◌}
use mathlib.Core.Option.{Option, none, some}
use mathlib.Core.List.{List, [], ◌∷◌, ◌++◌, map}
use mathlib.Core.Logic.{inl, inr}
use native.Mathlib.Omega.{arith}
use fastdds_transport_viz.Prelude.Tests.{if◌then◌else◌, Bool-cases}
use fastdds_transport_viz.Prelude.Lists.{keep_if}
use fastdds_transport_viz.Prelude.OrderedMap.{
  Key, lookup, has_key, insert, lookup-insert, has_key-replace, has_key-place,
}

module _ {K V : Type 0} ⦃key : Key K⦄ where
  -- Keys that are the same find the same entry.
  pub lookup-same : (j k : K) (m : List (K × V)) → key.same j k ≡ true → lookup j m ≡ lookup k m
  unfolding lookup
  lookup-same j k [] h = refl
  lookup-same j k ((i, v) ∷ m) h =
      ground
        (arith, lookup-same j k m h, key.same_trans i j k, key.same_trans i k j, key.same_sym j k)

  has_key-same : (j k : K) (m : List (K × V)) → key.same j k ≡ true → has_key j m ≡ has_key k m
  unfolding has_key
  has_key-same j k [] h = refl
  has_key-same j k ((i, v) ∷ m) h =
      ground
        (arith, has_key-same j k m h, key.same_trans i j k, key.same_trans i k j, key.same_sym j k)

  pub has_key-insert :
      (k j : K) (v : V) (m : List (K × V))
      → has_key j (insert k v m) ≡ (key.same k j || has_key j m)
  unfolding insert
  has_key-insert k j v m =
      ground (arith, has_key-replace j k v m, has_key-place j k v m, has_key-same k j m)

  -- `auto & slot = m[k]; slot = ...;`
  abbrev pub update_at : K → (Option V → V) → List (K × V) → List (K × V)
  update_at k change m = insert k (change (lookup k m)) m

  -- `erase(k)`
  abbrev pub erase : K → List (K × V) → List (K × V)
  erase k m = keep_if (λ e. not (key.same e.0 k)) m

  pub lookup-erase :
      (k j : K) (m : List (K × V))
      → lookup j (erase k m) ≡ (if key.same k j then none else lookup j m)
  unfolding lookup
  lookup-erase k j [] = ground arith
  lookup-erase k j ((i, v) ∷ m) = ground (
    arith,
    lookup-erase k j m,
    key.same_sym i k,
    key.same_trans k i j,
    key.same_sym i j,
    key.same_trans i j k,
    key.same_sym k j,
  )

module _ {K V : Type 0} ⦃key : Key K⦄ where
  pub has_key-erase :
      (k j : K) (m : List (K × V)) → has_key j (erase k m) ≡ (not (key.same k j) && has_key j m)
  unfolding has_key
  has_key-erase k j [] = ground arith
  has_key-erase k j ((i, v) ∷ m) = ground (
    arith,
    has_key-erase k j m,
    key.same_sym i k,
    key.same_trans k i j,
    key.same_sym i j,
    key.same_trans i j k,
    key.same_sym k j,
  )

module _ {V X : Type 0} (step : X → Option V → V) where
  -- What the elements of one key make of its entry.
  abbrev pub accumulate : List X → Option V → Option V
  accumulate [] o = o
  accumulate (x ∷ xs) o = accumulate xs (some (step x o))

module _ {V X Y : Type 0} (step : X → Option V → V) (f : Y → X) where
  -- A step that reads a part of each element.
  pub accumulate-map :
      (ys : List Y) (o : Option V)
      → accumulate (λ y. step (f y)) ys o ≡ accumulate step (map f ys) o
  accumulate-map [] o = refl
  accumulate-map (y ∷ ys) o = accumulate-map ys (some (step (f y) o))

module _ {K V X : Type 0} ⦃key : Key K⦄ (key_of : X → K) (step : X → Option V → V) where
  abbrev pub update_each : List X → List (K × V) → List (K × V)
  update_each [] m = m
  update_each (x ∷ xs) m = update_each xs (update_at (key_of x) (step x) m)

  pub update_each-append :
      (xs ys : List X) (m : List (K × V))
      → update_each (xs ++ ys) m ≡ update_each ys (update_each xs m)
  update_each-append [] ys m = refl
  update_each-append (x ∷ xs) ys m = update_each-append xs ys (update_at (key_of x) (step x) m)

  pub lookup-update_each :
      (k : K) (xs : List X) (m : List (K × V))
      → lookup k (update_each xs m)
        ≡ accumulate step (keep_if (λ x. key.same (key_of x) k) xs) (lookup k m)
  lookup-update_each k [] m = refl
  lookup-update_each k (x ∷ xs) m = elim (Bool-cases (key.same (key_of x) k)) [
    | inl e ↦
        rw
          (
            lookup-update_each k xs (update_at (key_of x) (step x) m),
            lookup-insert (key_of x) k (step x (lookup (key_of x) m)) m,
            e,
            lookup-same (key_of x) k m e,
          )
          refl
    | inr e ↦
        rw
          (
            lookup-update_each k xs (update_at (key_of x) (step x) m),
            lookup-insert (key_of x) k (step x (lookup (key_of x) m)) m,
            e,
          )
          refl
  ]
