-- ===== src/Decision/Verdicts.antt =====
-- decision.cpp: `decide`, with the type match and the pairs of one process.
use fastdds_transport_viz.Prelude.{
  ℕ, String, Bool, true, false, ◌||◌, ◌&&◌, not, List, [], ◌∷◌, str_eq, if◌then◌else◌, ◌==◌, zero,
  suc,
}
use fastdds_transport_viz.Prelude.Text.{str_is_empty}
use fastdds_transport_viz.Model.Endpoints.{Endpoint, bytes_eq}
use fastdds_transport_viz.Model.Pairs.{Verdict, new_verdict}
use fastdds_transport_viz.Decision.Locators.{has_text}
use fastdds_transport_viz.Decision.Split.{replace_code}
use fastdds_transport_viz.Decision.Steps.{add_reason, add_warning, decide_same_type}

-- `begin() + n` bounds the part of a byte array that is compared.
abbrev pub first_bytes : ℕ → List ℕ → List ℕ
first_bytes zero bs = []
first_bytes (suc n) [] = []
first_bytes (suc n) (b ∷ bs) = b ∷ first_bytes n bs

-- The vendor id of eProsima, in the first two bytes.
abbrev pub is_eprosima : List ℕ → Bool
is_eprosima (a ∷ b ∷ _) = a == 1 && b == 15
is_eprosima _ = false

unfoldable pub intra_process_pair : Endpoint → Endpoint → Bool
intra_process_pair writer reader =
    is_eprosima writer.guid_bytes
    && bytes_eq (first_bytes 8 writer.guid_bytes) (first_bytes 8 reader.guid_bytes)

pub data TypeInformationMatch : Type 0 where
  unknown same different : TypeInformationMatch

abbrev pub announced : Endpoint → Bool
announced e =
    not (str_is_empty e.type_information_hash) || not (str_is_empty e.type_information_minimal_hash)

abbrev pub equal_hash : String → String → Bool
equal_hash a b = not (str_is_empty a) && str_eq a b

unfoldable pub type_information_match : Endpoint → Endpoint → TypeInformationMatch
type_information_match writer reader =
    if not (announced writer) || not (announced reader)
    then unknown
    else if equal_hash writer.type_information_hash reader.type_information_hash
        || equal_hash writer.type_information_minimal_hash reader.type_information_minimal_hash
    then same
    else different

abbrev names_differ : Endpoint → Endpoint → Bool
names_differ writer reader = not (str_eq writer.dds_type reader.dds_type)

abbrev ros_hashes_differ : Endpoint → Endpoint → Bool
ros_hashes_differ writer reader =
    not (names_differ writer reader)
    && not (str_is_empty writer.type_hash)
    && not (str_is_empty reader.type_hash)
    && not (str_eq writer.type_hash reader.type_hash)

-- Fast DDS never matches the two types.
unfoldable pub types_unmatched : Endpoint → Endpoint → Bool
types_unmatched writer reader = elim (type_information_match writer reader) [
  | different ↦ true
  | unknown ↦ names_differ writer reader
  | same ↦ false
]

abbrev warn_type_hash : Bool → Verdict → Verdict
warn_type_hash test v = if test then add_warning "type-hash-mismatch" v else v

-- What `decide` adds to the verdict of two matched types.
unfoldable pub annotate : Endpoint → Endpoint → Verdict → Verdict
annotate writer reader v =
    let named =
      if names_differ writer reader then add_reason "type-names-differ-same-type" v else v in
    let local =
      if intra_process_pair writer reader && not (has_text "qos-incompatible" named.warnings)
      then record named {
        reasons = replace_code named.reasons "datasharing-unverified-by-traffic" "intra-process";
      }
      else named in
    warn_type_hash (ros_hashes_differ writer reader) local

unfoldable pub type_mismatch_verdict : Endpoint → Endpoint → Verdict
type_mismatch_verdict writer reader =
    let code =
      if names_differ writer reader then "type-name-mismatch" else "type-information-mismatch" in
    warn_type_hash (ros_hashes_differ writer reader) (add_reason code new_verdict)

unfoldable pub decide : (String → String → Bool) → Endpoint → Endpoint → Verdict
decide fnmatch writer reader =
    if types_unmatched writer reader
    then type_mismatch_verdict writer reader
    else annotate writer reader (decide_same_type fnmatch writer reader)
