-- ===== src/Summaries/Linking.antt =====
-- decision.cpp, `link_buffer_companions`: each companion endpoint and the parent that it serves.
-- The two fields that are written are read by no test of the function, so the tests read the
-- vector as it stands after the first loop.
pub mod Parents
pub mod Candidates
use fastdds_transport_viz.Prelude.{
  ℕ, ◌+◌, String, Bool, true, false, ◌&&◌, not, List, [], ◌∷◌, ◌++◌, Option, none, some, find,
  keep_if, map, str_eq, if◌then◌else◌, ◌==◌,
}
use fastdds_transport_viz.Model.Endpoints.{Endpoint, EndpointPtr}
use fastdds_transport_viz.Summaries.Companions.{parent_topic, byte_at, entity_key}
use fastdds_transport_viz.Summaries.Summarize.{pointers}

abbrev same_kind : Bool → Bool → Bool
same_kind true b = b
same_kind false b = not b

-- The test of the inner loop.
unfoldable pub is_candidate : EndpointPtr → String → EndpointPtr → Bool
is_candidate c topic p =
    not (p.place == c.place)
    && same_kind p.target.is_writer c.target.is_writer
    && str_eq p.target.participant_guid_prefix c.target.participant_guid_prefix
    && str_eq p.target.dds_type c.target.dds_type
    && str_eq p.target.dds_topic topic

-- The participant numbered `c` right after `p`.
unfoldable pub precedes : EndpointPtr → EndpointPtr → Bool
precedes c p =
    entity_key p.target + 1 == entity_key c.target
    && byte_at p.target.guid_bytes 15 == byte_at c.target.guid_bytes 15

-- The only candidate, or the first that precedes.
abbrev pub choose : EndpointPtr → List EndpointPtr → Option EndpointPtr
choose c [] = none
choose c (p ∷ []) = some p
choose c (p ∷ q ∷ ps) = find (precedes c) (p ∷ q ∷ ps)

abbrev parent_on : List EndpointPtr → EndpointPtr → Option String → Option EndpointPtr
parent_on all c none = none
parent_on all c (some topic) = choose c (keep_if (is_candidate c topic) all)

unfoldable pub parent_of : List EndpointPtr → EndpointPtr → Option EndpointPtr
parent_of all c = parent_on all c (parent_topic c.target.dds_topic)

abbrev pub with_links : EndpointPtr → String → List String → EndpointPtr
with_links x parent companions = record {
  place = x.place;
  target = record x.target { buffer_parent_guid = parent; buffer_companion_guids = companions };
}

-- The first loop.
abbrev pub clear : EndpointPtr → EndpointPtr
clear x = with_links x "" []

-- `c.buffer_parent_guid = parent->guid; parent->buffer_companion_guids.push_back(c.guid);` as the
-- element `x` of the vector sees it.
pub link_to : EndpointPtr → Option EndpointPtr → EndpointPtr → EndpointPtr
link_to c none x = x
link_to c (some p) x =
    with_links x (if c.place == x.place then p.target.guid else x.target.buffer_parent_guid) (
      if p.place == x.place
      then x.target.buffer_companion_guids ++ c.target.guid ∷ []
      else x.target.buffer_companion_guids)

-- The second loop.
pub link_loop : List EndpointPtr → List EndpointPtr → List EndpointPtr → List EndpointPtr
link_loop all [] xs = xs
link_loop all (c ∷ cs) xs = link_loop all cs (map (link_to c (parent_of all c)) xs)

pub link_buffer_companions : List Endpoint → List Endpoint
link_buffer_companions endpoints =
    let all = map clear (pointers 0 endpoints) in map (λ x. x.target) (link_loop all all all)
