-- ===== src/Observation/Measurable/Recount.antt =====
-- The pairs counted one by one, when an endpoint is added at the end.
use fastdds_transport_viz.Prelude.{
  ◌+◌, Bool, true, false, ◌&&◌, not, ◌≡◌, refl, List, [], ◌∷◌, ◌++◌, String, str_eq, arith,
  count_if, Bool-ext, if◌then◌else◌,
}
use fastdds_transport_viz.Prelude.Keys.{str_eq_sym}
use fastdds_transport_viz.Model.Endpoints.{Endpoint}
use fastdds_transport_viz.Observation.Measurable.{
  ProcessKey, process_same, process_key, process_same_sym,
}
use fastdds_transport_viz.Observation.Measurable.Reference.{meets, pairs_of}

abbrev pub same_side : Bool → Bool → Bool
same_side true b = b
same_side false b = not b

-- The endpoint is on the topic, as a writer or as a reader.
abbrev pub on_side : String → Bool → Endpoint → Bool
on_side topic is_writer x = str_eq x.dds_topic topic && same_side is_writer x.is_writer

abbrev pub in_process : ProcessKey → Endpoint → Bool
in_process k x = process_same (process_key x) k

-- What the endpoint forms a pair with, as the writer or as the reader.
abbrev pub pairs_with : Endpoint → Endpoint → Bool
pairs_with e x = on_side e.dds_topic (not e.is_writer) x && not (in_process (process_key e) x)

pub count_if-append :
    (p : Endpoint → Bool) (xs : List Endpoint) (e : Endpoint)
    → count_if p (xs ++ e ∷ []) ≡ count_if p xs + (if p e then 1 else 0)
count_if-append p [] e = omega arith
count_if-append p (x ∷ xs) e = omega (arith, count_if-append p xs e)

pub count_if_split :
    (p q : Endpoint → Bool) (xs : List Endpoint)
    → count_if (λ x. p x && q x) xs + count_if (λ x. p x && not (q x)) xs ≡ count_if p xs
count_if_split p q [] = refl
count_if_split p q (x ∷ xs) = ground (arith, count_if_split p q xs)

str_eq_comm : (a b : String) → str_eq a b ≡ str_eq b a
str_eq_comm a b = Bool-ext _ _ (str_eq_sym a b) (str_eq_sym b a)

process_same_comm : (j k : ProcessKey) → process_same j k ≡ process_same k j
process_same_comm j k = Bool-ext _ _ (process_same_sym j k) (process_same_sym k j)

one_pair :
    (e x : Endpoint)
    → (if meets e x then 1 else 0) + (if meets x e then 1 else 0)
      ≡ (if pairs_with e x then 1 else 0)
one_pair e x =
    ground (
      arith,
      str_eq_comm e.dds_topic x.dds_topic,
      process_same_comm (process_key e) (process_key x),
    )

meets_both :
    (e : Endpoint) (xs : List Endpoint)
    → count_if (meets e) xs + count_if (λ x. meets x e) xs ≡ count_if (pairs_with e) xs
meets_both e [] = refl
meets_both e (x ∷ xs) = omega (arith, meets_both e xs, one_pair e x)

pairs_of-append :
    (ws rs : List Endpoint) (e : Endpoint)
    → pairs_of (ws ++ e ∷ []) rs ≡ pairs_of ws rs + count_if (meets e) rs
pairs_of-append [] rs e = omega arith
pairs_of-append (w ∷ ws) rs e = omega (arith, pairs_of-append ws rs e)

pairs_of-append_right :
    (ws rs : List Endpoint) (e : Endpoint)
    → pairs_of ws (rs ++ e ∷ []) ≡ pairs_of ws rs + count_if (λ w. meets w e) ws
pairs_of-append_right [] rs e = refl
pairs_of-append_right (w ∷ ws) rs e =
    omega (arith, pairs_of-append_right ws rs e, count_if-append (meets w) rs e)

meets_self : (e : Endpoint) → meets e e ≡ false
meets_self e = ground arith

pub pairs_of-grow :
    (xs : List Endpoint) (e : Endpoint)
    → pairs_of (xs ++ e ∷ []) (xs ++ e ∷ []) ≡ pairs_of xs xs + count_if (pairs_with e) xs
pairs_of-grow xs e = ground (
  arith,
  pairs_of-append xs (xs ++ e ∷ []) e,
  pairs_of-append_right xs xs e,
  count_if-append (meets e) xs e,
  meets_self e,
  meets_both e xs,
)
