-- ===== src/Decision/Reasons.antt =====
-- Every verdict gives a reason.
use fastdds_transport_viz.Prelude.{
  String, Bool, true, false, ◌&&◌, ◌≡◌, inl, inr, refl, [], ◌∷◌, List, ◌++◌, is_empty, arith,
  Bool-cases,
}
use fastdds_transport_viz.Model.Endpoints.{Endpoint, bytes_eq}
use fastdds_transport_viz.Model.Pairs.{Verdict}
use fastdds_transport_viz.Decision.Qos.{qos_incompatibilities}
use fastdds_transport_viz.Decision.Split.{replace_code}
use fastdds_transport_viz.Decision.Transport.{datasharing_stage-cases}
use fastdds_transport_viz.Decision.Steps.{
  and_then, datasharing_verdict, datasharing_stage, shm_verdict, shm_stage, network_stage,
  same_host_verdict, cross_host_verdict, decide_same_type, incompatible_verdict, speaks_shm,
}
use fastdds_transport_viz.Decision.Verdicts.{
  types_unmatched, annotate, type_mismatch_verdict, decide,
}

abbrev pub IsExplained : Verdict → Type 0
IsExplained v = is_empty v.reasons ≡ false

ends_not_empty : (xs : List String) (x : String) → is_empty (xs ++ x ∷ []) ≡ false
ends_not_empty [] x = refl
ends_not_empty (y ∷ ys) x = refl

longer_not_empty : (xs ys : List String) → is_empty xs ≡ false → is_empty (xs ++ ys) ≡ false
longer_not_empty [] ys h = cc
longer_not_empty (x ∷ xs) ys h = refl

replace_code-not_empty : (xs : List String) (a b : String) → is_empty (replace_code xs a b) ≡ false
unfolding replace_code
replace_code-not_empty [] a b = refl
replace_code-not_empty (x ∷ xs) a b = ground arith

network_stage-IsExplained :
    (same_host : Bool) (w r : Endpoint) (v : Verdict) → IsExplained (network_stage same_host w r v)
unfolding network_stage
network_stage-IsExplained same_host w r v = grind (arith, ends_not_empty)

shm_verdict-IsExplained :
    (w r : Endpoint) (v : Verdict) → IsExplained v → IsExplained (shm_verdict w r v)
unfolding shm_verdict
shm_verdict-IsExplained w r v h = grind (arith, longer_not_empty)

datasharing_verdict-IsExplained :
    (w r : Endpoint) (v : Verdict) → IsExplained v → IsExplained (datasharing_verdict w r v)
unfolding datasharing_verdict
datasharing_verdict-IsExplained w r v h = grind (arith, ends_not_empty, longer_not_empty)

stages-IsExplained :
    (w r : Endpoint) (v : Verdict)
    → IsExplained v
    → IsExplained (
        and_then
          (datasharing_stage w r v)
          (λ u. and_then (shm_stage w r u) (network_stage true w r)))
unfolding shm_stage
stages-IsExplained w r v h = elim (datasharing_stage-cases w r v) [
  | inl (_, s) ↦ rw s (datasharing_verdict-IsExplained w r v h)
  | inr (_, s) ↦ elim (Bool-cases (speaks_shm w && speaks_shm r)) [
    | inl e ↦ rw (s, e) (shm_verdict-IsExplained w r _ (ends_not_empty _ _))
    | inr e ↦ rw (s, e) (network_stage-IsExplained true w r _)
  ]
]

same_host_verdict-IsExplained : (w r : Endpoint) → IsExplained (same_host_verdict w r)
unfolding same_host_verdict
same_host_verdict-IsExplained w r = stages-IsExplained w r _ (ground arith)

incompatible_verdict-IsExplained :
    (policies : List String)
    → is_empty policies ≡ false
    → IsExplained (incompatible_verdict policies)
unfolding incompatible_verdict
incompatible_verdict-IsExplained [] h = cc
incompatible_verdict-IsExplained (p ∷ ps) h = refl

decide_same_type-IsExplained :
    (fnmatch : String → String → Bool) (w r : Endpoint) → IsExplained (decide_same_type fnmatch w r)
unfolding decide_same_type cross_host_verdict
decide_same_type-IsExplained fnmatch w r =
    elim (Bool-cases (is_empty (qos_incompatibilities fnmatch w r))) [
      | inl e ↦ elim (Bool-cases (bytes_eq w.host_id r.host_id)) [
        | inl h ↦ rw (e, h) (same_host_verdict-IsExplained w r)
        | inr h ↦ rw (e, h) (network_stage-IsExplained false w r _)
      ]
      | inr e ↦ rw e (incompatible_verdict-IsExplained _ e)
    ]

annotate-IsExplained : (w r : Endpoint) (v : Verdict) → IsExplained v → IsExplained (annotate w r v)
unfolding annotate
annotate-IsExplained w r v h = grind (arith, replace_code-not_empty, ends_not_empty)

-- Whatever the two endpoints announce, the verdict carries at least one reason code.
pub decide-IsExplained :
    (fnmatch : String → String → Bool) (w r : Endpoint) → IsExplained (decide fnmatch w r)
unfolding decide type_mismatch_verdict
decide-IsExplained fnmatch w r = elim (Bool-cases (types_unmatched w r)) [
  | inl e ↦ rw e (ground arith)
  | inr e ↦ rw e (annotate-IsExplained w r _ (decide_same_type-IsExplained fnmatch w r))
]
