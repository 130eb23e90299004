-- ===== src/Prelude/OrderedMap/Values.antt =====
-- What holds of every value of a map.
use mathlib.Core.Path.{◌≡◌, subst}
use mathlib.Core.Option.{Option, none, some, some-injective}
use mathlib.Core.List.{List, [], ◌∷◌}
use mathlib.Core.Logic.{inl, inr}
use native.Mathlib.Omega.{arith}
use fastdds_transport_viz.Prelude.Tests.{Bool-cases, Option-cases}
use fastdds_transport_viz.Prelude.Lists.{All}
use fastdds_transport_viz.Prelude.OrderedMap.Updates.{update_at, update_each}
use fastdds_transport_viz.Prelude.OrderedMap.{Key, lookup, has_key, replace, place, insert}

module _ {K V : Type 0} where
  abbrev pub AllValues : (V → Type 0) → List (K × V) → Type 0
  AllValues P = All (λ e. P e.1)

  pub AllValues-map :
      (P Q : V → Type 0) (m : List (K × V)) → ((v : V) → P v → Q v) → AllValues P m → AllValues Q m
  AllValues-map P Q [] f h = tt
  AllValues-map P Q ((k, v) ∷ m) f (p, h) = (f v p, AllValues-map P Q m f h)

module _ {K V : Type 0} ⦃key : Key K⦄ (P : V → Type 0) where
  replace-AllValues :
      (k : K) (v : V) (m : List (K × V)) → P v → AllValues P m → AllValues P (replace k v m)
  unfolding replace
  replace-AllValues k v [] p h = tt
  replace-AllValues k v ((j, w) ∷ m) p (q, h) = elim (Bool-cases (key.same j k)) [
    | inl e ↦ rw e (p, h)
    | inr e ↦ rw e (q, replace-AllValues k v m p h)
  ]

  place-AllValues :
      (k : K) (v : V) (m : List (K × V)) → P v → AllValues P m → AllValues P (place k v m)
  unfolding place
  place-AllValues k v [] p h = (p, tt)
  place-AllValues k v ((j, w) ∷ m) p (q, h) = elim (Bool-cases (key.before k j)) [
    | inl e ↦ rw e (p, (q, h))
    | inr e ↦ rw e (q, place-AllValues k v m p h)
  ]

  pub insert-AllValues :
      (k : K) (v : V) (m : List (K × V)) → P v → AllValues P m → AllValues P (insert k v m)
  unfolding insert
  insert-AllValues k v m p h = elim (Bool-cases (has_key k m)) [
    | inl e ↦ rw e (replace-AllValues k v m p h)
    | inr e ↦ rw e (place-AllValues k v m p h)
  ]

  pub AllValues-lookup :
      (k : K) (v : V) (m : List (K × V)) → AllValues P m → lookup k m ≡ some v → P v
  unfolding lookup
  AllValues-lookup k v [] h e = absurd (ground arith)
  AllValues-lookup k v ((j, w) ∷ m) (p, h) e = elim (Bool-cases (key.same j k)) [
    | inl same ↦ subst P (some-injective w v (rw same at e)) p
    | inr other ↦ AllValues-lookup k v m h (rw other at e)
  ]

module _ {K V X : Type 0} ⦃key : Key K⦄ (key_of : X → K) (step : X → Option V → V) (P : V → Type 0)
    (first : (x : X) → P (step x none)) (later : (x : X) (v : V) → P v → P (step x (some v))) where
  -- What each step gives for one entry holds of every entry.
  pub update_each-AllValues :
      (xs : List X) (m : List (K × V)) → AllValues P m → AllValues P (update_each key_of step xs m)
  update_each-AllValues [] m h = h
  update_each-AllValues (x ∷ xs) m h = update_each-AllValues xs (update_at (key_of x) (step x) m) (
      insert-AllValues P (key_of x) (step x (lookup (key_of x) m)) m
        (elim (Option-cases (lookup (key_of x) m)) [
          | inl absent ↦ rw absent (first x)
          | inr (v, found) ↦ rw found (later x v (AllValues-lookup P (key_of x) v m h found))
        ])
        h)
