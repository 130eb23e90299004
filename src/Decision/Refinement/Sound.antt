-- ===== src/Decision/Refinement/Sound.antt =====
-- The verdict's transport is one that the rules predict.
use fastdds_transport_viz.Prelude.{
  String, Bool, true, false, ◌&&◌, ◌≡◌, ◌↔◌, inl, inr, refl, none, if◌then◌else◌, is_empty,
  is_empty-eq, Bool-cases, ap,
}
use fastdds_transport_viz.Model.Kinds.{Transport}
use fastdds_transport_viz.Model.Endpoints.{Endpoint, bytes_eq}
use fastdds_transport_viz.Decision.Locators.Pick.{pick_network_locator_lem}
use fastdds_transport_viz.Decision.Qos.{qos_incompatibilities}
use fastdds_transport_viz.Decision.Qos.Compatible.{qos_incompatibilities-nil_iff}
use fastdds_transport_viz.Decision.Split.{ipc_split_reasons}
use fastdds_transport_viz.Decision.Steps.{
  speaks_shm, datasharing_evidence, same_host_locators_hidden,
}
use fastdds_transport_viz.Decision.Verdicts.{types_unmatched, decide}
use fastdds_transport_viz.Decision.Rules.{
  Predicted, Matched, UsesNetwork, NothingReached, other_type, incompatible, zero_copy,
  zero_copy_split, shared_memory, shared_memory_split, network, hidden, unreachable,
}
use fastdds_transport_viz.Decision.Rules.Conditions.{
  TypesMatch, SameHost, DataSharingPair, HiddenLocators,
}
use fastdds_transport_viz.Decision.Rules.Splits.{IpcSplit-iff}
use fastdds_transport_viz.Decision.Rules.Tests.{
  types_unmatched_iff, SameHost-iff, BothShm-iff, datasharing_pair, datasharing_pair_sound,
  datasharing_pair_complete, hidden_iff,
}
use fastdds_transport_viz.Decision.Transport.{
  decide-transport, matched_transport, host_transport, network_transport, picked,
}
use fastdds_transport_viz.Decision.Refinement.Splits.{
  refuted, datasharing_split_iff, not_hidden_elsewhere,
}

module _ (fnmatch : String → String → Bool) (w r : Endpoint) where
  no_hidden : (¬ SameHost w r) → ¬ HiddenLocators w r
  no_hidden n h = n h.0

  unreached-Predicted :
      (same_host : Bool)
      → (same_host ≡ true) ↔ SameHost w r
      → Matched fnmatch w r
      → UsesNetwork w r
      → NothingReached w r
      → Predicted fnmatch w r (picked none (same_host_locators_hidden same_host w r))
  unreached-Predicted true d m u n = elim (Bool-cases (same_host_locators_hidden true w r)) [
    | inl e ↦ rw e (hidden m u n ((hidden_iff w r (d.0 refl)).0 e))
    | inr e ↦ rw e (unreachable m u n (refuted _ (hidden_iff w r (d.0 refl)) e))
  ]
  unreached-Predicted false d m u n =
      rw (not_hidden_elsewhere w r) (unreachable m u n (no_hidden (λ h. cc (d.1 h))))

  network-Predicted :
      (same_host : Bool)
      → (same_host ≡ true) ↔ SameHost w r
      → Matched fnmatch w r
      → UsesNetwork w r
      → Predicted fnmatch w r (network_transport same_host w r)
  network-Predicted same_host d m u = elim (pick_network_locator_lem w r) [
    | inl (e, none_first, none_later) ↦
        rw e (unreached-Predicted same_host d m u (none_first, none_later))
    | inr found ↦ elim found [
      | inl (l, e, first) ↦ rw e (network l m u (inl first) refl)
      | inr (l, e, none_first, later) ↦ rw e (network l m u (inr (none_first, later)) refl)
    ]
  ]

  no_zero_copy-Predicted :
      Matched fnmatch w r
      → SameHost w r
      → ¬ DataSharingPair w r
      → Predicted fnmatch w r (
          if speaks_shm w && speaks_shm r
          then (if is_empty (ipc_split_reasons w r) then Transport.shm else Transport.no_transport)
          else network_transport true w r)
  no_zero_copy-Predicted m h n = elim (Bool-cases (speaks_shm w && speaks_shm r)) [
    | inl b ↦ elim (Bool-cases (is_empty (ipc_split_reasons w r))) [
      | inl e ↦
          rw (b, e) (shared_memory m h n ((BothShm-iff w r).0 b) (λ s. cc ((IpcSplit-iff w r).1 s)))
      | inr e ↦
          rw (b, e) (shared_memory_split m h n ((BothShm-iff w r).0 b) ((IpcSplit-iff w r).0 e))
    ]
    | inr b ↦ rw b (
        network-Predicted true ((λ _. h), (λ _. refl)) m
          (inr (h, n, refuted _ (BothShm-iff w r) b)))
  ]

  host-Predicted : Matched fnmatch w r → SameHost w r → Predicted fnmatch w r (host_transport w r)
  host-Predicted m h = elim (Bool-cases (datasharing_pair w r)) [
    | inl p ↦ elim (Bool-cases (is_empty (datasharing_evidence w r))) [
      | inl e ↦
          rw (p, e)
            (zero_copy m h (datasharing_pair_sound w r p)
              (λ s. cc ((datasharing_split_iff w r).1 s)))
      | inr e ↦
          rw (p, e)
            (zero_copy_split m h (datasharing_pair_sound w r p) ((datasharing_split_iff w r).0 e))
    ]
    | inr p ↦ rw p (no_zero_copy-Predicted m h (λ d. cc (datasharing_pair_complete w r d)))
  ]

  matched-Predicted : TypesMatch w r → Predicted fnmatch w r (matched_transport fnmatch w r)
  matched-Predicted t = elim (Bool-cases (is_empty (qos_incompatibilities fnmatch w r))) [
    | inl e ↦
        let c = (qos_incompatibilities-nil_iff fnmatch w r).0 (is_empty-eq _ e) in
        let m : Matched fnmatch w r = record { types = t; qos = c } in
        elim (Bool-cases (bytes_eq w.host_id r.host_id)) [
          | inl h ↦ rw (e, h) (host-Predicted m ((SameHost-iff w r).0 h))
          | inr h ↦
              rw (e, h)
                (network-Predicted false
                  ((λ k. absurd (cc k)), (λ k. absurd (cc ((SameHost-iff w r).1 k)))) m
                  (inl (refuted _ (SameHost-iff w r) h)))
        ]
    | inr e ↦
        rw e
          (incompatible t (λ c. cc (ap is_empty ((qos_incompatibilities-nil_iff fnmatch w r).1 c))))
  ]

  -- The transport of the verdict is one that the rules predict.
  pub decide-Predicted : Predicted fnmatch w r (decide fnmatch w r).transport
  decide-Predicted = rw (decide-transport fnmatch w r) (cases (types_unmatched w r) refl)
    where
      cases :
          (b : Bool)
          → types_unmatched w r ≡ b
          → Predicted fnmatch w r
              (if b then Transport.no_transport else matched_transport fnmatch w r)
      cases true e = other_type (λ t. cc ((types_unmatched_iff w r).1 t))
      cases false e = matched-Predicted ((types_unmatched_iff w r).0 e)
