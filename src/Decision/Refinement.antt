-- ===== src/Decision/Refinement.antt =====
-- The prediction of the source implements the selection rules.
mod Splits
mod Sound
use fastdds_transport_viz.Prelude.{
  String, Bool, true, false, ◌&&◌, ◌≡◌, ◌≢◌, ◌↔◌, ◌⊎◌, inl, inr, refl, sym, ◌∙◌, none, [], ◌∷◌,
  List, if◌then◌else◌, ◌++◌, is_empty, is_empty-eq, Bool-cases, ap, subst,
}
use fastdds_transport_viz.Model.Kinds.{Transport}
use fastdds_transport_viz.Model.Endpoints.{Endpoint, bytes_eq}
use fastdds_transport_viz.Decision.Locators.Pick.{
  pick_network_locator_lem, pick_network_locator-first, pick_network_locator-unreached,
}
use fastdds_transport_viz.Decision.Qos.{qos_incompatibilities}
use fastdds_transport_viz.Decision.Qos.Compatible.{qos_incompatibilities-nil_iff}
use fastdds_transport_viz.Decision.Split.{ipc_split_reasons, datasharing_split_reasons}
use fastdds_transport_viz.Decision.Steps.{
  speaks_shm, datasharing_evidence, same_host_locators_hidden,
}
use fastdds_transport_viz.Decision.Verdicts.{types_unmatched, decide}
use fastdds_transport_viz.Decision.Rules.{
  Predicted, Matched, UsesNetwork, NothingReached, DataSharingSplit, other_type, incompatible,
  zero_copy, zero_copy_split, shared_memory, shared_memory_split, network, hidden, unreachable,
}
use fastdds_transport_viz.Decision.Rules.Conditions.{
  TypesMatch, SameHost, DataSharingPair, HiddenLocators,
}
use fastdds_transport_viz.Decision.Rules.Splits.{IpcSplit-iff, SegmentSplit-iff}
use fastdds_transport_viz.Decision.Rules.Tests.{
  types_unmatched_iff, SameHost-iff, BothShm-iff, datasharing_pair, datasharing_pair_sound,
  datasharing_pair_complete, hidden_iff,
}
use fastdds_transport_viz.Decision.Transport.{
  decide-transport, matched_transport, host_transport, network_transport, picked,
}
use fastdds_transport_viz.Decision.Refinement.Splits.{
  false_of, refuted, not_empty-append, not_empty-append_right, true_of_false, not_empty_of,
  datasharing_split_iff, not_hidden_elsewhere,
}
use fastdds_transport_viz.Decision.Refinement.Sound.{decide-Predicted}

module _ (fnmatch : String → String → Bool) (w r : Endpoint) where
  on_match :
      Matched fnmatch w r
      → (decide fnmatch w r).transport
        ≡ (if bytes_eq w.host_id r.host_id then host_transport w r else network_transport false w r)
  on_match m =
      decide-transport fnmatch w r
      ∙ rw
          ((types_unmatched_iff w r).1 m.types, (qos_incompatibilities-nil_iff fnmatch w r).1 m.qos)

  on_SameHost :
      Matched fnmatch w r → SameHost w r → (decide fnmatch w r).transport ≡ host_transport w r
  on_SameHost m h = on_match m ∙ rw ((SameHost-iff w r).1 h)

  no_pair : (¬ DataSharingPair w r) → datasharing_pair w r ≡ false
  no_pair n = elim (Bool-cases (datasharing_pair w r)) [
    | inl e ↦ absurd (n (datasharing_pair_sound w r e))
    | inr e ↦ e
  ]

  -- On the network the transport is that of the located or of the missing locator.
  on_network :
      Matched fnmatch w r
      → UsesNetwork w r
      → ((¬ SameHost w r) × ((decide fnmatch w r).transport ≡ network_transport false w r))
        ⊎ (SameHost w r × ((decide fnmatch w r).transport ≡ network_transport true w r))
  on_network m (inl n) = inl (n, on_match m ∙ rw (false_of _ (SameHost-iff w r) n))
  on_network m (inr (h, d, b)) =
      inr (h, on_SameHost m h ∙ rw (no_pair d, false_of _ (BothShm-iff w r) b))

  Predicted-decide : (t : Transport) → Predicted fnmatch w r t → (decide fnmatch w r).transport ≡ t
  Predicted-decide t (other_type n) =
      decide-transport fnmatch w r ∙ rw (true_of_false _ (types_unmatched_iff w r) n)
  Predicted-decide t (incompatible y n) =
      decide-transport fnmatch w r
      ∙ rw (
        (types_unmatched_iff w r).1 y,
        not_empty_of _ (λ e. n ((qos_incompatibilities-nil_iff fnmatch w r).0 e)),
      )
  Predicted-decide t (zero_copy m h d n) =
      on_SameHost m h
      ∙ rw (datasharing_pair_complete w r d, true_of_false _ (datasharing_split_iff w r) n)
  Predicted-decide t (zero_copy_split m h d s) =
      on_SameHost m h ∙ rw (datasharing_pair_complete w r d, (datasharing_split_iff w r).1 s)
  Predicted-decide t (shared_memory m h d b n) =
      on_SameHost m h ∙ rw (no_pair d, (BothShm-iff w r).1 b, true_of_false _ (IpcSplit-iff w r) n)
  Predicted-decide t (shared_memory_split m h d b s) =
      on_SameHost m h ∙ rw (no_pair d, (BothShm-iff w r).1 b, (IpcSplit-iff w r).1 s)
  Predicted-decide t (network l m u sel e) =
      let (flag, found) = pick_network_locator-first w r l sel in
      elim (on_network m u) [ inl k ↦ k.1 ∙ rw found (sym e) | inr k ↦ k.1 ∙ rw found (sym e) ]
  Predicted-decide t (hidden m u n h) = elim (on_network m u) [
    | inl k ↦ absurd (k.0 h.0)
    | inr k ↦ k.1 ∙ rw (pick_network_locator-unreached w r n.0 n.1, (hidden_iff w r k.0).1 h)
  ]
  Predicted-decide t (unreachable m u n h) = elim (on_network m u) [
    | inl k ↦ k.1 ∙ rw (pick_network_locator-unreached w r n.0 n.1, not_hidden_elsewhere w r)
    | inr k ↦
        k.1 ∙ rw (pick_network_locator-unreached w r n.0 n.1, false_of _ (hidden_iff w r k.0) h)
  ]

  -- For every writer, reader and `fnmatch`: the transport of the verdict is exactly the one that
  -- the selection rules give. The rules thus determine one transport for each pair.
  pub decide-Predicted_iff :
      (t : Transport) → ((decide fnmatch w r).transport ≡ t) ↔ Predicted fnmatch w r t
  decide-Predicted_iff t =
      ((λ e. subst (Predicted fnmatch w r) e (decide-Predicted fnmatch w r)), Predicted-decide t)
