-- ===== src/Prelude/OrderedMap/Distinct.antt =====
-- In a map no key of which stands in two entries, each entry is found.
use mathlib.Core.Path.{◌≡◌, refl, ap, subst}
use mathlib.Core.Bool.{false}
use mathlib.Core.Option.{some}
use mathlib.Core.List.{List, [], ◌∷◌}
use mathlib.Core.Logic.{inl, inr}
use native.Mathlib.Omega.{arith}
use fastdds_transport_viz.Prelude.Tests.{Bool-cases}
use fastdds_transport_viz.Prelude.Lists.{In}
use fastdds_transport_viz.Prelude.OrderedMap.{Key, lookup, has_key, IsDistinct}

module _ {K V : Type 0} ⦃key : Key K⦄ where
  absent_key :
      (j k : K) (v : V) (m : List (K × V))
      → has_key j m ≡ false
      → In (k, v) m
      → key.same j k ≡ false
  unfolding has_key
  absent_key j k v [] h e = elim e [ ]
  absent_key j k v ((i, w) ∷ m) h (inl e) =
      let same : k ≡ i = ap (λ (p : K × V). p.0) e in
      elim (Bool-cases (key.same j k)) [
        | inl y ↦ absurd (ground (arith, key.same_sym j k y, rw (← same) at h))
        | inr n ↦ n
      ]
  absent_key j k v ((i, w) ∷ m) h (inr e) = absent_key j k v m (ground arith) e

  pub lookup-In :
      (k : K) (v : V) (m : List (K × V)) → IsDistinct m → In (k, v) m → lookup k m ≡ some v
  unfolding lookup
  lookup-In k v [] d e = elim e [ ]
  lookup-In k v ((j, w) ∷ m) (n, d) (inl e) =
      subst (λ (x : K × V). lookup k (x ∷ m) ≡ some v) e (rw (key.same_refl k) refl)
  lookup-In k v ((j, w) ∷ m) (n, d) (inr e) = rw (absent_key j k v m n e) (lookup-In k v m d e)
