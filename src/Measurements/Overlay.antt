-- ===== src/Measurements/Overlay.antt =====
-- decision.cpp, `apply_stats`: the verdict of one pair, given its measurement.
pub mod Laws
pub mod Warnings
use fastdds_transport_viz.Prelude.{
  ℕ, String, Bool, true, false, ◌||◌, ◌&&◌, not, List, [], ◌∷◌, ◌++◌, any, str_eq, if◌then◌else◌,
  ◌==◌, ltb, is_empty, map, keep_if,
}
use fastdds_transport_viz.Model.Kinds.{LocatorKind, Transport, Confidence, kind_eq, transport_eq}
use fastdds_transport_viz.Model.Pairs.{Verdict, Measurement, MeasuredLocator}
use fastdds_transport_viz.Decision.Locators.{has_text}
use fastdds_transport_viz.Decision.Split.{replace_code}
use fastdds_transport_viz.Decision.Steps.{add_reason, add_warning}
use fastdds_transport_viz.Measurements.Locators.{same_locator_local, measured_reason}

-- What the loop of the source reads beside the pair itself.
pub record Surroundings : Type 0 where
  -- the writer's participant reports as many locators as the statistics writer can hold
  pub limit_suspected : Bool
  -- every pair of this writer on the topic is predicted as data-sharing or split
  pub all_readers_datasharing : Bool
  pub local_addresses : List String

abbrev pub add_warning_if : Bool → String → Verdict → Verdict
add_warning_if test code v = if test then add_warning code v else v

abbrev qos_unmatched : Verdict → Bool
qos_unmatched v = has_text "qos-incompatible" v.warnings

abbrev name_unmatched : Verdict → Bool
name_unmatched v = has_text "type-name-mismatch" v.reasons

abbrev type_information_unmatched : Verdict → Bool
type_information_unmatched v = has_text "type-information-mismatch" v.reasons

-- A pair that Fast DDS never matches.
unfoldable pub unmatched : Verdict → Bool
unmatched v = qos_unmatched v || name_unmatched v || type_information_unmatched v

pub unmatched_overlay : Measurement → Verdict → Verdict
unmatched_overlay m v =
    add_warning_if m.delivered
      (if qos_unmatched v
        then "qos-incompatible-but-delivered"
        else if name_unmatched v
        then "type-name-mismatch-but-delivered"
        else "type-information-mismatch-but-delivered")
      v

-- `for (auto tr : m.transports) {v.reasons.push_back(measured_reason(tr));}`
abbrev pub add_measured_reasons : Measurement → Verdict → Verdict
add_measured_reasons m v = record v { reasons = v.reasons ++ map measured_reason m.transports }

abbrev non_shm_in_window : MeasuredLocator → Bool
non_shm_in_window l = not (kind_eq l.locator.kind LocatorKind.shm) && ltb 0 l.packets

pub split_overlay : Measurement → Verdict → Verdict
split_overlay m v =
    let measured = add_measured_reasons m v in
    let proven = add_warning_if m.delivered "shm-ipc-namespace-split-but-delivered" measured in
    add_warning_if
      (has_text "both-shm-locators" measured.reasons && any non_shm_in_window m.locators)
      "shm-ipc-namespace-split-but-non-shm-traffic" proven

-- `replace_code(v.reasons, "datasharing-unverified-by-traffic", code)`
abbrev resolve : String → Verdict → Verdict
resolve code v = record v {
  reasons = replace_code v.reasons "datasharing-unverified-by-traffic" code;
}

abbrev pub first_or_shm : List Transport → Transport
first_or_shm [] = Transport.shm
first_or_shm (t ∷ _) = t

-- DATA left through a transport: the source reports what was measured.
pub not_zero_copy : Measurement → Verdict → Verdict
not_zero_copy m v = add_warning "datasharing-not-used" (
    add_measured_reasons m (
      resolve "datasharing-data-submessages-sent" (record v {
        transport = first_or_shm m.transports;
        confidence = if is_empty m.transports then Confidence.likely else Confidence.certain;
      })))

unfoldable pub datasharing_overlay : Surroundings → Measurement → Verdict → Verdict
datasharing_overlay around m v =
    if m.delivered && is_empty m.transports
    then resolve "datasharing-confirmed-no-traffic" (record v { confidence = Confidence.certain })
    else if m.delivered && m.data_count_available
    then (if not around.all_readers_datasharing
        then resolve "datasharing-ambiguous-mixed-readers" v
        else if m.data_submessages == 0
        then resolve "datasharing-confirmed-no-data-submessages"
            (record v { confidence = Confidence.certain })
        else not_zero_copy m v)
    else if not (is_empty m.transports)
    then resolve "datasharing-ambiguous-participant-traffic" v
    else resolve "datasharing-no-delivery-observed" v

pub silent_overlay : Surroundings → Measurement → Verdict → Verdict
silent_overlay around m v =
    add_warning
      (if around.limit_suspected
        then "stats-writer-instance-limit-suspected"
        else if m.delivered
        then "delivered-without-measured-traffic"
        else "no-traffic-observed")
      v

abbrev pub measured_matches : Measurement → Verdict → Bool
measured_matches m v = any (λ t. transport_eq t v.transport) m.transports

-- The prediction named a locator, and none of the measured ones is it.
abbrev locator_unmeasured : Surroundings → Measurement → Verdict → Bool
locator_unmeasured around m v =
    not (kind_eq v.locator.kind LocatorKind.invalid)
    && not (any (λ ml. same_locator_local ml.locator v.locator around.local_addresses) m.locators)

pub measured_overlay : Surroundings → Measurement → Verdict → Verdict
measured_overlay around m v =
    let matches = measured_matches m v in
    let reasoned = add_measured_reasons m v in
    let judged =
      if matches
      then record reasoned { confidence = Confidence.certain }
      else add_warning "measured-transport-mismatch" reasoned in
    add_warning_if (matches && locator_unmeasured around m v) "measured-locator-mismatch"
      (add_warning_if (m.packets == 0 && m.delivered) "delivered-without-measured-traffic" judged)

-- From here on the pair is one that packets can show.
unfoldable pub transport_overlay : Surroundings → Measurement → Verdict → Verdict
transport_overlay around m v = elim (transport_eq v.transport Transport.data_sharing) [
  | true ↦ datasharing_overlay around m v
  | false ↦ if is_empty m.transports then silent_overlay around m v else measured_overlay around m v
]

abbrev pub without_code : String → List String → List String
without_code code = keep_if (λ c. not (str_eq c code))

abbrev pub unstamped : Verdict → Verdict
unstamped v = record v { reasons = without_code "intra-process" v.reasons }

unfoldable pub process_overlay : Surroundings → Measurement → Verdict → Verdict
process_overlay around m v =
    if has_text "intra-process" v.reasons
    then (if m.packets == 0
        then add_warning_if (not m.delivered) "no-traffic-observed" v
        else transport_overlay around m (unstamped v))
    else transport_overlay around m v

unfoldable pub overlay : Surroundings → Measurement → Verdict → Verdict
overlay around m v =
    if unmatched v
    then unmatched_overlay m v
    else if has_text "shm-ipc-namespace-split" v.warnings
    then split_overlay m v
    else if not m.available
    then add_warning "stats-not-enabled-on-writer" v
    else process_overlay around m v
