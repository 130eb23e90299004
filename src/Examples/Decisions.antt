-- ===== src/Examples/Decisions.antt =====
-- The prediction at concrete endpoints.
use fastdds_transport_viz.Prelude.{
  String, ◌≡◌, ◌⊎◌, ◌↔◌, refl, List, [], ◌∷◌, none, some, All, true, false,
}
use fastdds_transport_viz.Model.Kinds.{Transport, Confidence}
use fastdds_transport_viz.Model.Endpoints.{Locator, Endpoint}
use fastdds_transport_viz.Model.Pairs.{Verdict}
use fastdds_transport_viz.Decision.Locators.{
  has_kind, find_locator, ip_addresses, transport_for, reason_for, usable, pick_from,
  pick_network_locator, domains_intersect,
}
use fastdds_transport_viz.Decision.Locators.Pick.{Reaches, FirstReached, pick_network_locator_lem}
use fastdds_transport_viz.Decision.Qos.{
  durability_rank, liveliness_rank, partitions_match, qos_incompatibilities,
}
use fastdds_transport_viz.Decision.Qos.Compatible.{Compatible, qos_incompatibilities-nil_iff}
use fastdds_transport_viz.Decision.Split.{
  shm_ports, shares_port, ipc_split_reasons, datasharing_split_reasons, replace_code,
}
use fastdds_transport_viz.Decision.Steps.{
  ip_differs, have_domains, datasharing_evidence, datasharing_verdict, datasharing_stage,
  shm_verdict, shm_stage, same_host_locators_hidden, network_stage, same_host_verdict,
  cross_host_verdict, incompatible_verdict, decide_same_type,
}
use fastdds_transport_viz.Decision.Verdicts.{
  intra_process_pair, type_information_match, types_unmatched, annotate, type_mismatch_verdict,
  decide,
}
use fastdds_transport_viz.Decision.Rules.{Predicted}
use fastdds_transport_viz.Decision.Refinement.{decide-Predicted_iff}
use fastdds_transport_viz.Decision.Evidence.{NamesLocator, decide-NamesLocator}
use fastdds_transport_viz.Decision.Confidence.{IsHedged, decide-IsHedged}
use fastdds_transport_viz.Decision.Reasons.{IsExplained, decide-IsExplained}
use fastdds_transport_viz.Examples.Data.{
  no_patterns, talker, listener, remote_listener, split_listener, best_effort_talker,
  sharing_talker, sharing_listener,
}

-- The transport, the confidence, the reasons and the warnings of five verdicts.
abbrev shown : Endpoint → Endpoint → Transport × Confidence × List String × List String
shown w r =
    let v : Verdict = decide no_patterns w r in (v.transport, v.confidence, v.reasons, v.warnings)

decide_test :
    (shown talker listener ≡ (
      Transport.shm,
      Confidence.certain,
      "same-host-guid" ∷ "datasharing-disabled-writer" ∷ "both-shm-locators" ∷ [],
      [],
    ))
    × (shown talker remote_listener
        ≡ (Transport.udpv4, Confidence.certain, "different-host" ∷ "common-udpv4-locator" ∷ [], []))
    × (shown talker split_listener ≡ (
      Transport.no_transport,
      Confidence.certain,
      "same-host-guid" ∷ "datasharing-disabled-writer" ∷ "both-shm-locators" ∷ "shm-port-collision"
          ∷ [],
      "shm-ipc-namespace-split" ∷ [],
    ))
    × (shown best_effort_talker listener ≡ (
      Transport.no_transport,
      Confidence.certain,
      "qos-incompatible-reliability" ∷ [],
      "qos-incompatible" ∷ [],
    ))
    × (shown sharing_talker sharing_listener ≡ (
      Transport.data_sharing,
      Confidence.likely,
      "same-host-guid" ∷ "datasharing-qos-enabled-both" ∷ "datasharing-domain-ids-match"
          ∷ "datasharing-unverified-by-traffic" ∷ [],
      [],
    ))
unfolding has_kind find_locator ip_addresses transport_for reason_for usable pick_from
    pick_network_locator domains_intersect durability_rank liveliness_rank partitions_match
    qos_incompatibilities shm_ports shares_port ipc_split_reasons datasharing_split_reasons
    replace_code ip_differs have_domains datasharing_evidence datasharing_verdict datasharing_stage
    shm_verdict shm_stage same_host_locators_hidden network_stage same_host_verdict
    cross_host_verdict incompatible_verdict decide_same_type intra_process_pair
    type_information_match types_unmatched annotate type_mismatch_verdict decide
decide_test = (refl, refl, refl, refl, refl)

decide-Predicted_iff_example :
    ((decide no_patterns talker listener).transport ≡ Transport.shm)
    ↔ Predicted no_patterns talker listener Transport.shm
decide-Predicted_iff_example = decide-Predicted_iff no_patterns talker listener Transport.shm

decide-NamesLocator_example : NamesLocator listener (decide no_patterns talker listener)
decide-NamesLocator_example = decide-NamesLocator no_patterns talker listener

decide-IsHedged_example : IsHedged (decide no_patterns sharing_talker sharing_listener)
decide-IsHedged_example = decide-IsHedged no_patterns sharing_talker sharing_listener

decide-IsExplained_example : IsExplained (decide no_patterns talker remote_listener)
decide-IsExplained_example = decide-IsExplained no_patterns talker remote_listener

qos_incompatibilities-nil_iff_example :
    (qos_incompatibilities no_patterns best_effort_talker listener ≡ [])
    ↔ Compatible no_patterns best_effort_talker.qos listener.qos
qos_incompatibilities-nil_iff_example =
    qos_incompatibilities-nil_iff no_patterns best_effort_talker listener

pick_network_locator_example :
    ((pick_network_locator talker remote_listener ≡ none)
      × All (λ k. ¬ Reaches talker k) remote_listener.unicast
      × All (λ k. ¬ Reaches talker k) remote_listener.multicast)
    ⊎ (((l : Locator) × (pick_network_locator talker remote_listener ≡ some (l, false))
          × FirstReached talker l remote_listener.unicast)
        ⊎ ((l : Locator) × (pick_network_locator talker remote_listener ≡ some (l, true))
            × All (λ k. ¬ Reaches talker k) remote_listener.unicast
            × FirstReached talker l remote_listener.multicast))
pick_network_locator_example = pick_network_locator_lem talker remote_listener
