-- ===== src/Summaries/Companions.antt =====
-- decision.cpp: the native-buffer companions of rmw_fastrtps, on <topic>/_buf_cpu.
use fastdds_transport_viz.Prelude.{
  ℕ, ◌+◌, ◌*◌, String, Bool, true, false, ◌&&◌, not, List, [], ◌∷◌, ◌++◌, Option, none, some, any,
  if◌then◌else◌, is_empty, zero, suc,
}
use fastdds_transport_viz.Prelude.Text.{strip_suffix, str_is_empty}
use fastdds_transport_viz.Model.Endpoints.{Endpoint, EndpointPtr}
use fastdds_transport_viz.Decision.Qos.{when}

abbrev buffer_companion_suffix : String
buffer_companion_suffix = "/_buf_cpu"

-- The parent topic of a companion topic: what precedes the suffix, which is not all of the name.
abbrev non_empty : Option String → Option String
non_empty none = none
non_empty (some s) = if str_is_empty s then none else some s

unfoldable pub parent_topic : String → Option String
parent_topic dds_topic = non_empty (strip_suffix buffer_companion_suffix dds_topic)

abbrev is_found {ℓ} : {A : Type ℓ} → Option A → Bool
is_found none = false
is_found (some _) = true

unfoldable pub is_buffer_companion_topic : String → Bool
is_buffer_companion_topic dds_topic = is_found (parent_topic dds_topic)

-- A byte of the GUID; the source's array always has 16.
abbrev pub byte_at : List ℕ → ℕ → ℕ
byte_at [] n = 0
byte_at (b ∷ bs) zero = b
byte_at (b ∷ bs) (suc n) = byte_at bs n

-- `(b12 << 16) | (b13 << 8) | b14` of three bytes.
unfoldable pub entity_key : Endpoint → ℕ
entity_key e =
    byte_at e.guid_bytes 12 * 65536 + byte_at e.guid_bytes 13 * 256 + byte_at e.guid_bytes 14

-- The flags `folded`, `companion` and `unmatched`, and their codes.
unfoldable pub buffer_codes : List EndpointPtr → List String
buffer_codes endpoints =
    when (any (λ p. not (is_empty p.target.buffer_companion_guids)) endpoints)
      "buffer-companion-folded"
    ++ (when (any (λ p. not (str_is_empty p.target.buffer_parent_guid)) endpoints)
          "buffer-companion"
        ++ when
            (any
              (λ p.
                str_is_empty p.target.buffer_parent_guid
                && is_buffer_companion_topic p.target.dds_topic)
              endpoints)
            "buffer-companion-unmatched")
