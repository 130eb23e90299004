-- ===== src/Decision/Confidence.antt =====
-- How sure a verdict is, and that it always gives a reason.
use fastdds_transport_viz.Prelude.{
  String, Bool, true, false, ◌&&◌, ◌≡◌, ◌↔◌, inl, inr, is_empty, arith, Bool-cases, Option-cases,
  some, find, find-none, find-In, any-append, ◌++◌,
}
use fastdds_transport_viz.Model.Kinds.{LocatorKind, Transport, Confidence, kind_eq, kind_eq_iff}
use fastdds_transport_viz.Model.Endpoints.{Locator, Endpoint, bytes_eq}
use fastdds_transport_viz.Model.Pairs.{Verdict}
use fastdds_transport_viz.Decision.Locators.{transport_for, has_kind, find_locator}
use fastdds_transport_viz.Decision.Qos.{qos_incompatibilities}
use fastdds_transport_viz.Decision.Transport.{datasharing_stage-cases}
use fastdds_transport_viz.Decision.Steps.{
  and_then, datasharing_verdict, datasharing_stage, shm_verdict, shm_stage, network_stage,
  same_host_verdict, cross_host_verdict, decide_same_type, incompatible_verdict, speaks_shm,
}
use fastdds_transport_viz.Decision.Verdicts.{
  types_unmatched, annotate, type_mismatch_verdict, decide,
}

-- A transport is predicted, and the verdict names no locator for it.
abbrev Unlocated : Verdict → Type 0
Unlocated v = (¬ (v.transport ≡ Transport.no_transport)) × (v.locator.kind ≡ LocatorKind.invalid)

abbrev pub IsHedged : Verdict → Type 0
IsHedged v = (v.confidence ≡ Confidence.likely) ↔ Unlocated v

-- The verdict as it enters a stage.
record IsFresh (v : Verdict) : Type 0 where
  transport : v.transport ≡ Transport.no_transport
  confidence : v.confidence ≡ Confidence.certain
  locator : v.locator.kind ≡ LocatorKind.invalid

network_stage-IsHedged :
    (same_host : Bool) (w r : Endpoint) (v : Verdict)
    → IsFresh v
    → IsHedged (network_stage same_host w r v)
unfolding network_stage transport_for
network_stage-IsHedged same_host w r v h = ground arith

shm_locator :
    (r : Endpoint)
    → speaks_shm r ≡ true
    → (l : Locator) × (find_locator r LocatorKind.shm ≡ some l) × (l.kind ≡ LocatorKind.shm)
unfolding has_kind find_locator
shm_locator r h =
    let test : Locator → Bool = λ l. kind_eq l.kind LocatorKind.shm in
    elim (Option-cases (find test (r.unicast ++ r.multicast))) [
      | inl e ↦ absurd (
          cc
            (any-append test r.unicast r.multicast, h, find-none test (r.unicast ++ r.multicast) e))
      | inr (l, e) ↦
          let (m, k) = find-In test (r.unicast ++ r.multicast) l e in
          (l, e, (kind_eq_iff l.kind LocatorKind.shm).0 k)
    ]

shm_verdict-IsHedged :
    (w r : Endpoint) (v : Verdict) → speaks_shm r ≡ true → IsFresh v → IsHedged (shm_verdict w r v)
unfolding shm_verdict
shm_verdict-IsHedged w r v s h = let (l, e, k) = shm_locator r s in rw e (ground arith)

datasharing_verdict-IsHedged :
    (w r : Endpoint) (v : Verdict) → IsFresh v → IsHedged (datasharing_verdict w r v)
unfolding datasharing_verdict
datasharing_verdict-IsHedged w r v h = ground arith

shm_stage-IsHedged :
    (w r : Endpoint) (v : Verdict)
    → IsFresh v
    → IsHedged (and_then (shm_stage w r v) (network_stage true w r))
unfolding shm_stage
shm_stage-IsHedged w r v h = elim (Bool-cases (speaks_shm w && speaks_shm r)) [
  | inl e ↦ rw e (shm_verdict-IsHedged w r _ (ground arith) (ground arith))
  | inr e ↦ rw e (network_stage-IsHedged true w r _ (ground arith))
]

stages-IsHedged :
    (w r : Endpoint) (v : Verdict)
    → IsFresh v
    → IsHedged (
        and_then
          (datasharing_stage w r v)
          (λ u. and_then (shm_stage w r u) (network_stage true w r)))
stages-IsHedged w r v h = elim (datasharing_stage-cases w r v) [
  | inl (_, s) ↦ rw s (datasharing_verdict-IsHedged w r v h)
  | inr (_, s) ↦ rw s (shm_stage-IsHedged w r _ (ground arith))
]

same_host_verdict-IsHedged : (w r : Endpoint) → IsHedged (same_host_verdict w r)
unfolding same_host_verdict
same_host_verdict-IsHedged w r = stages-IsHedged w r _ (ground arith)

cross_host_verdict-IsHedged : (w r : Endpoint) → IsHedged (cross_host_verdict w r)
unfolding cross_host_verdict
cross_host_verdict-IsHedged w r = network_stage-IsHedged false w r _ (ground arith)

decide_same_type-IsHedged :
    (fnmatch : String → String → Bool) (w r : Endpoint) → IsHedged (decide_same_type fnmatch w r)
unfolding decide_same_type incompatible_verdict
decide_same_type-IsHedged fnmatch w r =
    elim (Bool-cases (is_empty (qos_incompatibilities fnmatch w r))) [
      | inl e ↦ elim (Bool-cases (bytes_eq w.host_id r.host_id)) [
        | inl h ↦ rw (e, h) (same_host_verdict-IsHedged w r)
        | inr h ↦ rw (e, h) (cross_host_verdict-IsHedged w r)
      ]
      | inr e ↦ rw e (ground arith)
    ]

annotate-IsHedged : (w r : Endpoint) (v : Verdict) → IsHedged v → IsHedged (annotate w r v)
unfolding annotate
annotate-IsHedged w r v h = ground arith

-- A verdict is hedged exactly when it predicts a transport and names no locator for it. The verdicts
-- that predict no transport are certain.
pub decide-IsHedged :
    (fnmatch : String → String → Bool) (w r : Endpoint) → IsHedged (decide fnmatch w r)
unfolding decide type_mismatch_verdict
decide-IsHedged fnmatch w r = elim (Bool-cases (types_unmatched w r)) [
  | inl e ↦ rw e (ground arith)
  | inr e ↦ rw e (annotate-IsHedged w r _ (decide_same_type-IsHedged fnmatch w r))
]
