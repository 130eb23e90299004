-- ===== src/Decision/Steps.antt =====
-- decision.cpp, `decide_same_type`: its stages, on the verdict that is being built.
-- A stage that returns from the function gives `return_now`, any other `go_on`.
use fastdds_transport_viz.Prelude.{
  String, Bool, true, false, ◌||◌, ◌&&◌, not, List, [], ◌∷◌, ◌++◌, Option, none, some, any,
  if◌then◌else◌, is_empty, map,
}
use fastdds_transport_viz.Prelude.Text.{text_append}
use fastdds_transport_viz.Model.Kinds.{LocatorKind, Transport, Confidence, is_off, is_unknown}
use fastdds_transport_viz.Model.Endpoints.{Locator, Endpoint, bytes_eq}
use fastdds_transport_viz.Model.Pairs.{Verdict, new_verdict}
use fastdds_transport_viz.Decision.Locators.{
  has_kind, find_locator, ip_addresses, transport_for, reason_for, pick_network_locator,
  domains_intersect, has_text,
}
use fastdds_transport_viz.Decision.Qos.{qos_incompatibilities}
use fastdds_transport_viz.Decision.Split.{ipc_split_reasons, datasharing_split_reasons}

pub data Stage : Type 0 where
  return_now go_on : Verdict → Stage

abbrev pub and_then : Stage → (Verdict → Verdict) → Verdict
and_then (return_now v) next = v
and_then (go_on v) next = next v

abbrev pub add_reason : String → Verdict → Verdict
add_reason code v = record v { reasons = v.reasons ++ code ∷ [] }

abbrev pub add_warning : String → Verdict → Verdict
add_warning code v = record v { warnings = v.warnings ++ code ∷ [] }

abbrev add_reason_if : Bool → String → Verdict → Verdict
add_reason_if test code v = if test then add_reason code v else v

abbrev pub speaks_shm : Endpoint → Bool
speaks_shm e = has_kind e LocatorKind.shm

-- The host ids agree, but no IP address is common to both sides.
unfoldable pub ip_differs : Endpoint → Endpoint → Bool
ip_differs writer reader =
    let wip = ip_addresses writer in
    let rip = ip_addresses reader in
    not (is_empty wip) && not (is_empty rip) && not (any (λ a. has_text a rip) wip)

-- NONE, with the evidence of the split.
abbrev split_verdict : List String → Verdict → Verdict
split_verdict split v = record v {
  transport = Transport.no_transport;
  confidence = Confidence.certain;
  reasons = v.reasons ++ split;
  warnings = v.warnings ++ "shm-ipc-namespace-split" ∷ [];
}

unfoldable pub have_domains : Endpoint → Endpoint → Bool
have_domains writer reader =
    not (is_empty writer.qos.data_sharing_domains) && not (is_empty reader.qos.data_sharing_domains)

-- The evidence against a data-sharing pair.
unfoldable pub datasharing_evidence : Endpoint → Endpoint → List String
datasharing_evidence writer reader =
    (if speaks_shm writer && speaks_shm reader then ipc_split_reasons writer reader else [])
    ++ datasharing_split_reasons writer reader

-- Both sides announce data-sharing and no domain ids speak against it.
unfoldable pub datasharing_verdict : Endpoint → Endpoint → Verdict → Verdict
datasharing_verdict writer reader v =
    let domains =
      if have_domains writer reader
      then "datasharing-domain-ids-match"
      else "datasharing-domain-ids-unknown" in
    let enabled = add_reason domains (add_reason "datasharing-qos-enabled-both" v) in
    let split = datasharing_evidence writer reader in
    if is_empty split
    then add_reason "datasharing-unverified-by-traffic"
        (record enabled { transport = Transport.data_sharing; confidence = Confidence.likely })
    else split_verdict split
        (add_reason_if (speaks_shm writer && speaks_shm reader) "both-shm-locators" enabled)

unfoldable pub datasharing_stage : Endpoint → Endpoint → Verdict → Stage
datasharing_stage writer reader v =
    let wd = writer.qos.data_sharing in
    let rd = reader.qos.data_sharing in
    if is_off wd
    then go_on (add_reason "datasharing-disabled-writer" v)
    else if is_off rd
    then go_on (add_reason "datasharing-disabled-reader" v)
    else if is_unknown wd || is_unknown rd
    then go_on (add_reason "datasharing-qos-unknown" v)
    else if have_domains writer reader
        && not (domains_intersect writer.qos.data_sharing_domains reader.qos.data_sharing_domains)
    then go_on (add_reason "datasharing-domain-ids-mismatch" v)
    else return_now (datasharing_verdict writer reader v)

abbrev set_locator : Option Locator → Verdict → Verdict
set_locator none v = v
set_locator (some l) v = record v { locator = l }

unfoldable pub shm_verdict : Endpoint → Endpoint → Verdict → Verdict
shm_verdict writer reader v =
    let split = ipc_split_reasons writer reader in
    if is_empty split
    then set_locator (find_locator reader LocatorKind.shm) (record v { transport = Transport.shm })
    else split_verdict split v

unfoldable pub shm_stage : Endpoint → Endpoint → Verdict → Stage
shm_stage writer reader v =
    if speaks_shm writer && speaks_shm reader
    then return_now (shm_verdict writer reader (add_reason "both-shm-locators" v))
    else go_on (
        add_reason_if (not (speaks_shm reader)) "reader-no-shm-locator"
          (add_reason_if (not (speaks_shm writer)) "writer-no-shm-locator" v))

-- `same_host && (… filtered || … filtered) && (w_shm != r_shm)`
unfoldable pub same_host_locators_hidden : Bool → Endpoint → Endpoint → Bool
same_host_locators_hidden same_host writer reader =
    same_host
    && (writer.same_host_locators_filtered || reader.same_host_locators_filtered)
    && not (if speaks_shm writer then speaks_shm reader else not (speaks_shm reader))

abbrev fallback_verdict : Bool → Verdict → Verdict
fallback_verdict hidden v =
    if hidden
    then add_reason "same-host-locators-hidden"
        (record v { transport = Transport.udpv4; confidence = Confidence.likely })
    else add_reason "no-common-transport" (record v { transport = Transport.no_transport })

abbrev pub located_verdict : Locator → Bool → Verdict → Verdict
located_verdict l multicast v =
    add_reason (reason_for l.kind)
      (record v { transport = transport_for l.kind; locator = l; locator_multicast = multicast })

unfoldable pub network_stage : Bool → Endpoint → Endpoint → Verdict → Verdict
network_stage same_host writer reader v = elim (pick_network_locator writer reader) [
  | some (l, multicast) ↦ located_verdict l multicast v
  | none ↦ fallback_verdict (same_host_locators_hidden same_host writer reader) v
]

unfoldable pub same_host_verdict : Endpoint → Endpoint → Verdict
same_host_verdict writer reader =
    let host = add_reason "same-host-guid" new_verdict in
    let checked =
      if ip_differs writer reader then add_warning "host-id-match-but-ip-differs" host else host in
    and_then (datasharing_stage writer reader checked)
      λ v. and_then (shm_stage writer reader v) (network_stage true writer reader)

unfoldable pub cross_host_verdict : Endpoint → Endpoint → Verdict
cross_host_verdict writer reader = network_stage false writer reader (
    add_reason_if (speaks_shm writer && speaks_shm reader) "shm-locators-ignored-across-hosts"
      (add_reason "different-host" new_verdict))

-- NONE, with a reason for each policy that fails.
unfoldable pub incompatible_verdict : List String → Verdict
incompatible_verdict policies = record new_verdict {
  reasons = map (λ policy. text_append "qos-incompatible-" policy) policies;
  warnings = "qos-incompatible" ∷ [];
}

unfoldable pub decide_same_type : (String → String → Bool) → Endpoint → Endpoint → Verdict
decide_same_type fnmatch writer reader =
    let incompatible = qos_incompatibilities fnmatch writer reader in
    if not (is_empty incompatible)
    then incompatible_verdict incompatible
    else if bytes_eq writer.host_id reader.host_id
    then same_host_verdict writer reader
    else cross_host_verdict writer reader
