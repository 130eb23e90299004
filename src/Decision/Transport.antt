-- ===== src/Decision/Transport.antt =====
-- The transport of a verdict as one expression over the tests of the source.
use fastdds_transport_viz.Prelude.{
  String, Bool, true, false, ◌&&◌, ◌||◌, ◌≡◌, ◌⊎◌, inl, inr, ◌∙◌, Option, none, some, is_empty,
  if◌then◌else◌, arith, Bool-cases,
}
use fastdds_transport_viz.Model.Kinds.{Transport, is_off, is_unknown}
use fastdds_transport_viz.Model.Endpoints.{Locator, Endpoint, bytes_eq}
use fastdds_transport_viz.Model.Pairs.{Verdict}
use fastdds_transport_viz.Decision.Locators.{transport_for, pick_network_locator}
use fastdds_transport_viz.Decision.Qos.{qos_incompatibilities}
use fastdds_transport_viz.Decision.Split.{ipc_split_reasons}
use fastdds_transport_viz.Decision.Steps.{
  incompatible_verdict, return_now, go_on, and_then, add_reason, speaks_shm, datasharing_evidence,
  datasharing_verdict, datasharing_stage, shm_verdict, shm_stage, network_stage, same_host_verdict,
  cross_host_verdict, decide_same_type, same_host_locators_hidden,
}
use fastdds_transport_viz.Decision.Verdicts.{
  types_unmatched, annotate, type_mismatch_verdict, decide,
}
use fastdds_transport_viz.Decision.Rules.Tests.{datasharing_pair}

abbrev pub picked : Option (Locator × Bool) → Bool → Transport
picked (some (l, _)) hidden = transport_for l.kind
picked none hidden = if hidden then Transport.udpv4 else Transport.no_transport

abbrev pub network_transport : Bool → Endpoint → Endpoint → Transport
network_transport same_host w r =
    picked (pick_network_locator w r) (same_host_locators_hidden same_host w r)

abbrev pub host_transport : Endpoint → Endpoint → Transport
host_transport w r =
    if datasharing_pair w r
    then (if is_empty (datasharing_evidence w r)
        then Transport.data_sharing
        else Transport.no_transport)
    else if speaks_shm w && speaks_shm r
    then (if is_empty (ipc_split_reasons w r) then Transport.shm else Transport.no_transport)
    else network_transport true w r

network_stage-transport :
    (same_host : Bool) (w r : Endpoint) (v : Verdict)
    → (network_stage same_host w r v).transport ≡ network_transport same_host w r
unfolding network_stage
network_stage-transport same_host w r v = ground arith

datasharing_verdict-transport :
    (w r : Endpoint) (v : Verdict)
    → (datasharing_verdict w r v).transport ≡ (
        if is_empty (datasharing_evidence w r)
        then Transport.data_sharing
        else Transport.no_transport)
unfolding datasharing_verdict
datasharing_verdict-transport w r v = ground arith

shm_verdict-transport :
    (w r : Endpoint) (v : Verdict)
    → (shm_verdict w r v).transport
      ≡ (if is_empty (ipc_split_reasons w r) then Transport.shm else Transport.no_transport)
unfolding shm_verdict
shm_verdict-transport w r v = ground arith

-- The reason for which the data-sharing stage goes on.
pub refusal : Endpoint → Endpoint → String
refusal w r =
    if is_off w.qos.data_sharing
    then "datasharing-disabled-writer"
    else if is_off r.qos.data_sharing
    then "datasharing-disabled-reader"
    else if is_unknown w.qos.data_sharing || is_unknown r.qos.data_sharing
    then "datasharing-qos-unknown"
    else "datasharing-domain-ids-mismatch"

stage_code :
    (w r : Endpoint) (v : Verdict)
    → datasharing_pair w r ≡ false
    → datasharing_stage w r v ≡ go_on (add_reason (refusal w r) v)
unfolding datasharing_stage refusal
stage_code w r v e = ground arith

-- The data-sharing stage returns for a data-sharing pair alone.
pub datasharing_stage-cases :
    (w r : Endpoint) (v : Verdict)
    → ((datasharing_pair w r ≡ true)
        × (datasharing_stage w r v ≡ return_now (datasharing_verdict w r v)))
      ⊎ ((datasharing_pair w r ≡ false)
          × (datasharing_stage w r v ≡ go_on (add_reason (refusal w r) v)))
unfolding datasharing_stage
datasharing_stage-cases w r v = elim (Bool-cases (datasharing_pair w r)) [
  | inl e ↦ inl (e, ground arith)
  | inr e ↦ inr (e, stage_code w r v e)
]

after_datasharing :
    (w r : Endpoint) (v : Verdict)
    → (and_then (shm_stage w r v) (network_stage true w r)).transport ≡ (
        if speaks_shm w && speaks_shm r
        then (if is_empty (ipc_split_reasons w r) then Transport.shm else Transport.no_transport)
        else network_transport true w r)
unfolding shm_stage
after_datasharing w r v = elim (Bool-cases (speaks_shm w && speaks_shm r)) [
  | inl e ↦ rw e (shm_verdict-transport w r _)
  | inr e ↦ rw e (network_stage-transport true w r _)
]

staged-transport :
    (w r : Endpoint) (v : Verdict)
    → (and_then
        (datasharing_stage w r v)
        (λ u. and_then (shm_stage w r u) (network_stage true w r))).transport
      ≡ host_transport w r
staged-transport w r v = elim (datasharing_stage-cases w r v) [
  | inl (e, s) ↦ rw (s, e) (datasharing_verdict-transport w r v)
  | inr (e, s) ↦ rw (s, e) (after_datasharing w r _)
]

same_host_verdict-transport :
    (w r : Endpoint) → (same_host_verdict w r).transport ≡ host_transport w r
unfolding same_host_verdict
same_host_verdict-transport w r = staged-transport w r _

pub annotate-transport : (w r : Endpoint) (v : Verdict) → (annotate w r v).transport ≡ v.transport
unfolding annotate
annotate-transport w r v = ground arith

type_mismatch_verdict-transport :
    (w r : Endpoint) → (type_mismatch_verdict w r).transport ≡ Transport.no_transport
unfolding type_mismatch_verdict
type_mismatch_verdict-transport w r = ground arith

abbrev pub matched_transport : (String → String → Bool) → Endpoint → Endpoint → Transport
matched_transport fnmatch w r =
    if is_empty (qos_incompatibilities fnmatch w r)
    then (if bytes_eq w.host_id r.host_id then host_transport w r else network_transport false w r)
    else Transport.no_transport

cross_host_verdict-transport :
    (w r : Endpoint) → (cross_host_verdict w r).transport ≡ network_transport false w r
unfolding cross_host_verdict
cross_host_verdict-transport w r = network_stage-transport false w r _

decide_same_type-transport :
    (fnmatch : String → String → Bool) (w r : Endpoint)
    → (decide_same_type fnmatch w r).transport ≡ matched_transport fnmatch w r
unfolding decide_same_type incompatible_verdict
decide_same_type-transport fnmatch w r =
    elim (Bool-cases (is_empty (qos_incompatibilities fnmatch w r))) [
      | inl e ↦ elim (Bool-cases (bytes_eq w.host_id r.host_id)) [
        | inl h ↦ rw (e, h) (same_host_verdict-transport w r)
        | inr h ↦ rw (e, h) (cross_host_verdict-transport w r)
      ]
      | inr e ↦ rw e
    ]

-- The transport that the source comes to, with the stages put together.
pub decide-transport :
    (fnmatch : String → String → Bool) (w r : Endpoint)
    → (decide fnmatch w r).transport
      ≡ (if types_unmatched w r then Transport.no_transport else matched_transport fnmatch w r)
unfolding decide
decide-transport fnmatch w r = elim (Bool-cases (types_unmatched w r)) [
  | inl e ↦ rw e (type_mismatch_verdict-transport w r)
  | inr e ↦ rw e (
      annotate-transport w r (decide_same_type fnmatch w r)
      ∙ decide_same_type-transport fnmatch w r)
]
