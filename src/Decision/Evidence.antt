-- ===== src/Decision/Evidence.antt =====
-- What a verdict says beside the transport: the selected locator, the confidence, the reasons.
use fastdds_transport_viz.Prelude.{
  String, Bool, true, false, ◌&&◌, ◌≡◌, ◌⊎◌, inl, inr, refl, ◌∙◌, none, some, ◌∷◌, List, ◌++◌,
  is_empty, In, arith, Bool-cases, Option-cases, find-In, In-append_left, In-append_right,
}
use fastdds_transport_viz.Model.Kinds.{LocatorKind, kind_eq, kind_eq_iff}
use fastdds_transport_viz.Model.Endpoints.{Locator, Endpoint, no_locator, bytes_eq}
use fastdds_transport_viz.Model.Pairs.{Verdict}
use fastdds_transport_viz.Decision.Locators.{pick_network_locator, transport_for, find_locator}
use fastdds_transport_viz.Decision.Locators.Pick.{announced_locators, pick_network_locator_lem}
use fastdds_transport_viz.Decision.Qos.{qos_incompatibilities}
use fastdds_transport_viz.Decision.Split.{ipc_split_reasons}
use fastdds_transport_viz.Decision.Transport.{datasharing_stage-cases, annotate-transport}
use fastdds_transport_viz.Decision.Steps.{
  and_then, datasharing_verdict, datasharing_stage, shm_verdict, shm_stage, network_stage,
  same_host_verdict, cross_host_verdict, decide_same_type, incompatible_verdict, speaks_shm,
  located_verdict,
}
use fastdds_transport_viz.Decision.Verdicts.{
  types_unmatched, annotate, type_mismatch_verdict, decide,
}

-- No locator, or one that the reader announces and whose kind is the transport.
abbrev pub NamesLocator : Endpoint → Verdict → Type 0
NamesLocator r v =
    (v.locator ≡ no_locator)
    ⊎ (In v.locator (announced_locators r) × (v.transport ≡ transport_for v.locator.kind))

middle : (l : Locator) (earlier later : List Locator) → In l (earlier ++ l ∷ later)
middle l earlier later = In-append_right l earlier (l ∷ later) (inl refl)

NamesLocator-same :
    (r : Endpoint) (v u : Verdict)
    → u.locator ≡ v.locator
    → u.transport ≡ v.transport
    → NamesLocator r v
    → NamesLocator r u
NamesLocator-same r v u e f h = rw (e, f) h

picked-In :
    (w r : Endpoint)
    → (pick_network_locator w r ≡ none)
      ⊎ ((l : Locator) × (flag : Bool) × (pick_network_locator w r ≡ some (l, flag))
          × In l (announced_locators r))
picked-In w r = elim (pick_network_locator_lem w r) [
  | inl (e, _, _) ↦ inl e
  | inr (inl (l, e, (earlier, later, split, _, _))) ↦
      inr (l, false, e, In-append_left l r.unicast r.multicast (rw split (middle l earlier later)))
  | inr (inr (l, e, _, (earlier, later, split, _, _))) ↦
      inr (l, true, e, In-append_right l r.unicast r.multicast (rw split (middle l earlier later)))
]

network_stage-NamesLocator :
    (same_host : Bool) (w r : Endpoint) (v : Verdict)
    → v.locator ≡ no_locator
    → NamesLocator r (network_stage same_host w r v)
unfolding network_stage
network_stage-NamesLocator same_host w r v h = elim (picked-In w r) [
  | inl e ↦ inl (ground arith)
  | inr (l, flag, e, m) ↦
      NamesLocator-same r (located_verdict l flag v) (network_stage same_host w r v) (ground arith)
        (ground arith) (inr (m, refl))
]

shm_verdict-NamesLocator :
    (w r : Endpoint) (v : Verdict) → v.locator ≡ no_locator → NamesLocator r (shm_verdict w r v)
unfolding shm_verdict find_locator transport_for
shm_verdict-NamesLocator w r v h = elim (Bool-cases (is_empty (ipc_split_reasons w r))) [
  | inl e ↦ elim (Option-cases (find_locator r LocatorKind.shm)) [
    | inl none_found ↦ inl (ground arith)
    | inr (l, found) ↦
        let (m, k) = find-In (λ (x : Locator). kind_eq x.kind LocatorKind.shm) _ l found in
        NamesLocator-same r (record v { transport = transport_for l.kind; locator = l })
          (shm_verdict w r v) (ground arith)
          (ground (arith, (kind_eq_iff l.kind LocatorKind.shm).0 k)) (inr (m, refl))
  ]
  | inr e ↦ inl (ground arith)
]

datasharing_verdict-locator :
    (w r : Endpoint) (v : Verdict) → (datasharing_verdict w r v).locator ≡ v.locator
unfolding datasharing_verdict
datasharing_verdict-locator w r v = ground arith

shm_stage-NamesLocator :
    (w r : Endpoint) (v : Verdict)
    → v.locator ≡ no_locator
    → NamesLocator r (and_then (shm_stage w r v) (network_stage true w r))
unfolding shm_stage
shm_stage-NamesLocator w r v h = elim (Bool-cases (speaks_shm w && speaks_shm r)) [
  | inl e ↦ rw e (shm_verdict-NamesLocator w r _ h)
  | inr e ↦ rw e (network_stage-NamesLocator true w r _ (ground arith))
]

stages-NamesLocator :
    (w r : Endpoint) (v : Verdict)
    → v.locator ≡ no_locator
    → NamesLocator r (
        and_then
          (datasharing_stage w r v)
          (λ u. and_then (shm_stage w r u) (network_stage true w r)))
stages-NamesLocator w r v h = elim (datasharing_stage-cases w r v) [
  | inl (_, s) ↦ rw s (inl (datasharing_verdict-locator w r v ∙ h))
  | inr (_, s) ↦ rw s (shm_stage-NamesLocator w r _ h)
]

same_host_verdict-NamesLocator : (w r : Endpoint) → NamesLocator r (same_host_verdict w r)
unfolding same_host_verdict
same_host_verdict-NamesLocator w r = stages-NamesLocator w r _ (ground arith)

annotate-locator : (w r : Endpoint) (v : Verdict) → (annotate w r v).locator ≡ v.locator
unfolding annotate
annotate-locator w r v = ground arith

annotate-NamesLocator :
    (w r : Endpoint) (v : Verdict) → NamesLocator r v → NamesLocator r (annotate w r v)
annotate-NamesLocator w r v h =
    NamesLocator-same r v (annotate w r v) (annotate-locator w r v) (annotate-transport w r v) h

decide_same_type-NamesLocator :
    (fnmatch : String → String → Bool) (w r : Endpoint)
    → NamesLocator r (decide_same_type fnmatch w r)
unfolding decide_same_type incompatible_verdict cross_host_verdict
decide_same_type-NamesLocator fnmatch w r =
    elim (Bool-cases (is_empty (qos_incompatibilities fnmatch w r))) [
      | inl e ↦ elim (Bool-cases (bytes_eq w.host_id r.host_id)) [
        | inl h ↦ rw (e, h) (same_host_verdict-NamesLocator w r)
        | inr h ↦ rw (e, h) (network_stage-NamesLocator false w r _ (ground arith))
      ]
      | inr e ↦ rw e (inl refl)
    ]

-- The verdict names a locator only if the reader announces it, and then its kind is the
-- predicted transport.
pub decide-NamesLocator :
    (fnmatch : String → String → Bool) (w r : Endpoint) → NamesLocator r (decide fnmatch w r)
unfolding decide type_mismatch_verdict
decide-NamesLocator fnmatch w r = elim (Bool-cases (types_unmatched w r)) [
  | inl e ↦ rw e (inl (ground arith))
  | inr e ↦ rw e (annotate-NamesLocator w r _ (decide_same_type-NamesLocator fnmatch w r))
]
