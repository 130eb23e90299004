-- ===== src/Decision/Split.antt =====
-- decision.cpp: the evidence that two endpoints of one host live in two IPC namespaces.
use fastdds_transport_viz.Prelude.{
  String, Bool, ◌&&◌, List, [], ◌∷◌, ◌++◌, ℕ, any, str_eq, if◌then◌else◌, ◌==◌, keep_if, map,
}
use fastdds_transport_viz.Model.Kinds.{
  LocatorKind, ShmVisibility, kind_eq, is_visible, is_not_visible,
}
use fastdds_transport_viz.Model.Endpoints.{Endpoint}
use fastdds_transport_viz.Decision.Qos.{when}

unfoldable pub shm_ports : Endpoint → List ℕ
shm_ports e =
    e.participant_shm_ports
    ++ map (λ l. l.port) (keep_if (λ l. kind_eq l.kind LocatorKind.shm) e.unicast)

abbrev same_participant : Endpoint → Endpoint → Bool
same_participant w r = str_eq w.participant_guid_prefix r.participant_guid_prefix

-- One number stands in both sets.
unfoldable pub shares_port : List ℕ → List ℕ → Bool
shares_port wp rp = any (λ p. any (λ q. q == p) rp) wp

-- The two-way test on the visibilities of the writer and of the reader.
abbrev visibility_reasons : ShmVisibility → ShmVisibility → String → String → List String
visibility_reasons wv rv reader_code writer_code =
    if is_visible wv && is_not_visible rv
    then reader_code ∷ []
    else if is_not_visible wv && is_visible rv
    then writer_code ∷ []
    else []

unfoldable pub ipc_split_reasons : Endpoint → Endpoint → List String
ipc_split_reasons writer reader =
    if same_participant writer reader
    then []
    else when (shares_port (shm_ports writer) (shm_ports reader)) "shm-port-collision"
      ++ visibility_reasons writer.participant_shm_visibility reader.participant_shm_visibility
          "shm-reader-port-not-visible" "shm-writer-port-not-visible"

unfoldable pub datasharing_split_reasons : Endpoint → Endpoint → List String
datasharing_split_reasons writer reader =
    if same_participant writer reader
    then []
    else visibility_reasons writer.datasharing_segment_visibility
        reader.datasharing_segment_visibility "datasharing-reader-segment-not-visible"
        "datasharing-writer-segment-not-visible"

-- Replaces the first `from`, or appends `to`.
unfoldable pub replace_code : List String → String → String → List String
replace_code [] from to = to ∷ []
replace_code (c ∷ codes) from to =
    if str_eq c from then to ∷ codes else c ∷ replace_code codes from to
