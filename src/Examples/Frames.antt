-- ===== src/Examples/Frames.antt =====
-- Names, topics and frames, at concrete data.
use fastdds_transport_viz.Prelude.{
  ℕ, map, String, ◌≡◌, ◌↔◌, ◌⊎◌, refl, List, [], ◌∷◌, none, some, All, count_if, if◌then◌else◌,
  ◌==◌, str_eq, In,
}
use fastdds_transport_viz.Model.Endpoints.{Endpoint, EndpointPtr, bytes_eq}
use fastdds_transport_viz.Model.Kinds.{Transport, Confidence, KeyMode}
use fastdds_transport_viz.Names.Topics.{RosEntityKind, no_ros_name, named, demangle_topic}
use fastdds_transport_viz.Names.Topics.Mangling.{
  Mangled, request, demangle_topic-Mangled, Mangled-demangle_topic,
}
use fastdds_transport_viz.Names.Nodes.{NodeEntities, update}
use fastdds_transport_viz.Names.Nodes.Lookup.{owner, participant_lookup, lookup-update}
use fastdds_transport_viz.Diff.States.{pair_key_key, PairKey, PairState, States, pair_states}
use fastdds_transport_viz.Diff.Changes.{diff}
use fastdds_transport_viz.Diff.Laws.{missing_keys, no_changes, diff_flip}
use fastdds_transport_viz.Prelude.OrderedMap.{has_key, IsDistinct}
use fastdds_transport_viz.Diff.Complete.{change_of, SamePair, diff-lists}
use fastdds_transport_viz.Diff.Nodes.{diff_snapshots}
use fastdds_transport_viz.Diff.Nodes.Self.{diff_snapshots_self}
use fastdds_transport_viz.Summaries.Summarize.{summarize, pointers}
use fastdds_transport_viz.Summaries.Summarize.Complete.{
  in_topics, IsJudged, summarize-count, summarize-IsJudged,
}
use fastdds_transport_viz.Summaries.Linking.{is_candidate, parent_of, link_buffer_companions}
use fastdds_transport_viz.Summaries.Companions.{parent_topic}
use fastdds_transport_viz.Summaries.Linking.Parents.{
  linked, cleared_vector, link_buffer_companions-linked,
}
use fastdds_transport_viz.Summaries.Linking.Candidates.{IsParent, parent_of-IsParent}
use fastdds_transport_viz.Summaries.Filter.{filter_by_node}
use fastdds_transport_viz.Summaries.Filter.Kept.{filter_by_node-twice}
use fastdds_transport_viz.Examples.Data.{
  no_patterns, talker, listener, remote_listener, shm_locator,
}

demangle_topic-Mangled_example :
    demangle_topic "rq/add_two_intsRequest" ≡ named RosEntityKind.service_request "add_two_ints"
demangle_topic-Mangled_example =
    demangle_topic-Mangled RosEntityKind.service_request "add_two_ints" "rq/add_two_intsRequest"
      (request "add_two_ints" refl)

Mangled-demangle_topic_example :
    (demangle_topic "rt/chatter" ≡ no_ros_name)
    ⊎ ((kind : RosEntityKind) × (rest : String) × (demangle_topic "rt/chatter" ≡ named kind rest)
        × Mangled kind rest "rt/chatter")
Mangled-demangle_topic_example = Mangled-demangle_topic "rt/chatter"

abbrev talker_node : NodeEntities
talker_node = record {
  node_namespace = "/";
  node_name = "talker";
  reader_gids = [];
  writer_gids = talker.guid_bytes ∷ [];
}

lookup-update_example :
    participant_lookup (1 ∷ []) talker.guid_bytes (update (1 ∷ []) (talker_node ∷ []) []) ≡ (
      if bytes_eq (1 ∷ []) (1 ∷ [])
      then some (owner talker.guid_bytes (talker_node ∷ []) none)
      else participant_lookup (1 ∷ []) talker.guid_bytes [])
lookup-update_example = lookup-update (1 ∷ []) (1 ∷ []) (talker_node ∷ []) [] talker.guid_bytes

abbrev before : List Endpoint
before = talker ∷ listener ∷ []

abbrev after : List Endpoint
after = talker ∷ remote_listener ∷ []

abbrev frame_of : List Endpoint → States
frame_of endpoints = pair_states (summarize no_patterns endpoints)

diff_flip_example :
    ((diff (frame_of before) (frame_of [])).added ≡ missing_keys (frame_of before) (frame_of []))
    × ((diff (frame_of before) (frame_of [])).removed
        ≡ missing_keys (frame_of []) (frame_of before))
    × ((diff (frame_of before) (frame_of [])).added
        ≡ (diff (frame_of []) (frame_of before)).removed)
diff_flip_example = diff_flip (frame_of before) (frame_of [])

abbrev chatter_key : PairKey
chatter_key = record {
  topic = "/chatter";
  writer_guid = talker.guid;
  reader_guid = listener.guid;
  writer_node = "/talker";
  reader_node = "/listener";
}

abbrev by_transport : Transport → PairState
by_transport t = record {
  transport = t;
  confidence = Confidence.certain;
  measured = [];
  locator = shm_locator;
  measured_locators = [];
  warnings = [];
}

abbrev by_shm : States
by_shm = (chatter_key, by_transport Transport.shm) ∷ []

abbrev by_udp : States
by_udp = (chatter_key, by_transport Transport.udpv4) ∷ []

by_shm-IsDistinct : IsDistinct by_shm
unfolding has_key
by_shm-IsDistinct = (refl, tt)

diff-lists_example :
    In
      (change_of chatter_key chatter_key
        (by_transport Transport.shm)
        (by_transport Transport.udpv4))
      (diff by_shm by_udp).changed
    ↔ (In (chatter_key, by_transport Transport.udpv4) by_udp
        × In (chatter_key, by_transport Transport.shm) by_shm
        × SamePair chatter_key chatter_key
        × (¬ (by_transport Transport.shm ≡ by_transport Transport.udpv4)))
diff-lists_example =
    diff-lists by_shm by_udp by_shm-IsDistinct chatter_key chatter_key (by_transport Transport.shm)
      (by_transport Transport.udpv4)

diff_snapshots_self_example :
    diff_snapshots (summarize no_patterns before) (summarize no_patterns before) KeyMode.node
    ≡ no_changes
diff_snapshots_self_example = diff_snapshots_self (summarize no_patterns before) KeyMode.node

summarize-count_example :
    in_topics (λ p. p.place == 1) (summarize no_patterns before)
    ≡ count_if (λ p. p.place == 1) (pointers 0 before)
summarize-count_example = summarize-count (λ p. p.place == 1) no_patterns before

summarize-IsJudged_example : All (IsJudged no_patterns) (summarize no_patterns before)
summarize-IsJudged_example = summarize-IsJudged no_patterns before

filter_by_node-twice_example :
    filter_by_node
      (λ e. str_eq e.node_name "/talker")
      (filter_by_node (λ e. str_eq e.node_name "/talker") (summarize no_patterns before))
    ≡ filter_by_node (λ e. str_eq e.node_name "/talker") (summarize no_patterns before)
filter_by_node-twice_example =
    filter_by_node-twice (λ e. str_eq e.node_name "/talker") (summarize no_patterns before)

-- The talker with its native-buffer companion.
abbrev companion : Endpoint
companion = record talker { guid = "companion"; dds_topic = "rt/chatter/_buf_cpu" }

abbrev linking : List EndpointPtr
linking = cleared_vector (talker ∷ companion ∷ [])

link_buffer_companions_example :
    link_buffer_companions (talker ∷ companion ∷ []) ≡ map (linked linking) linking
link_buffer_companions_example = link_buffer_companions-linked (talker ∷ companion ∷ [])

abbrev at_place : ℕ → Endpoint → EndpointPtr
at_place place e = record { place = place; target = e }

parent_found :
    parent_of (at_place 0 talker ∷ at_place 1 companion ∷ []) (at_place 1 companion)
    ≡ some (at_place 0 talker)
unfolding parent_of parent_topic is_candidate
parent_found = refl

parent_of_example :
    (topic : String) × IsParent
      (at_place 0 talker ∷ at_place 1 companion ∷ [])
      (at_place 1 companion)
      (at_place 0 talker)
      topic
parent_of_example =
    parent_of-IsParent (at_place 0 talker ∷ at_place 1 companion ∷ []) (at_place 1 companion)
      (at_place 0 talker) parent_found
