-- ===== src/Summaries/Summarize.antt =====
-- decision.cpp, `summarize` (before `classify_topics`): the topics in the order of their display
-- names, each with its writers, its readers and a verdict for every pair of them.
-- std::sort is modelled by insertion, which leaves topics of one display name in the order of
-- their DDS names; the source leaves that order open.
pub mod Complete
use fastdds_transport_viz.Prelude.{
  ℕ, ◌+◌, String, Bool, true, false, ◌||◌, ◌&&◌, not, List, [], ◌∷◌, ◌++◌, Option, none, some,
  str_eq, if◌then◌else◌, is_empty, map, zero, suc,
}
use fastdds_transport_viz.Prelude.Text.{str_is_empty, str_lt}
use fastdds_transport_viz.Prelude.OrderedMap.{lookup, insert}
use fastdds_transport_viz.Prelude.Keys.{text_key}
use fastdds_transport_viz.Model.Kinds.{TopicKind, GroupDirection}
use fastdds_transport_viz.Model.Endpoints.{Endpoint, EndpointPtr}
use fastdds_transport_viz.Model.Pairs.{Pair, Verdict, TopicSummary, new_measurement}
use fastdds_transport_viz.Decision.Qos.{when}
use fastdds_transport_viz.Decision.Verdicts.{decide}
use fastdds_transport_viz.Summaries.Companions.{buffer_codes}

abbrev new_topic : TopicSummary
new_topic = record {
  dds_topic = "";
  display_topic = "";
  display_type = "";
  dds_type = "";
  is_ros_topic = false;
  kind = TopicKind.other;
  group = "";
  direction = GroupDirection.no_direction;
  writers = [];
  readers = [];
  pairs = [];
  unmatched_reasons = [];
}

abbrev pub or_new : Option TopicSummary → TopicSummary
or_new none = new_topic
or_new (some t) = t

abbrev if_text : String → String → String
if_text text other = if str_is_empty text then other else text

-- `if (t.dds_topic.empty()) {…}`: the first endpoint of the topic names it.
pub name_topic : Endpoint → TopicSummary → TopicSummary
name_topic e t =
    if str_is_empty t.dds_topic
    then record t {
      dds_topic = e.dds_topic;
      is_ros_topic = not (str_is_empty e.ros_topic);
      display_topic = if_text e.ros_topic e.dds_topic;
      display_type = if_text e.ros_type e.dds_type;
      dds_type = e.dds_type;
    }
    else t

pub add_endpoint : EndpointPtr → TopicSummary → TopicSummary
add_endpoint p t =
    if p.target.is_writer
    then record t { writers = t.writers ++ p ∷ [] }
    else record t { readers = t.readers ++ p ∷ [] }

abbrev pub Topics : Type 0
Topics = List (String × TopicSummary)

-- `auto & t = by_topic[e.dds_topic]; …`
pub group_endpoint : EndpointPtr → Topics → Topics
group_endpoint p topics =
    let key = p.target.dds_topic in
    insert key (add_endpoint p (name_topic p.target (or_new (lookup key topics)))) topics

pub group_endpoints : List EndpointPtr → Topics → Topics
group_endpoints [] topics = topics
group_endpoints (p ∷ ps) topics = group_endpoints ps (group_endpoint p topics)

-- The addresses of the elements of a vector.
unfoldable pub pointers : ℕ → List Endpoint → List EndpointPtr
pointers place [] = []
pointers place (e ∷ es) = record { place = place; target = e } ∷ pointers (place + 1) es

abbrev add_reasons : List String → Verdict → Verdict
add_reasons codes v = record v { reasons = v.reasons ++ codes }

unfoldable pub unmatched_codes : List EndpointPtr → List EndpointPtr → List Pair → List String
unmatched_codes writers readers pairs =
    when (is_empty writers) "no-matching-writer"
    ++ (when (is_empty readers) "no-matching-reader"
        ++ (if is_empty pairs then buffer_codes (writers ++ readers) else []))

-- `std::sort` by the display topic.
pub insert_topic : TopicSummary → List TopicSummary → List TopicSummary
insert_topic t [] = t ∷ []
insert_topic t (u ∷ us) =
    if str_lt u.display_topic t.display_topic then u ∷ insert_topic t us else t ∷ u ∷ us

pub sort_topics : List TopicSummary → List TopicSummary
sort_topics [] = []
sort_topics (t ∷ ts) = insert_topic t (sort_topics ts)

module _ (fnmatch : String → String → Bool) where
  pub make_pair : EndpointPtr → EndpointPtr → Pair
  make_pair w r = record {
    writer = w;
    reader = r;
    verdict = add_reasons (buffer_codes (w ∷ r ∷ [])) (decide fnmatch w.target r.target);
    measured = new_measurement;
  }

  -- The loop over the writers, and in it the loop over the readers.
  pub make_pairs : List EndpointPtr → List EndpointPtr → List Pair
  make_pairs [] readers = []
  make_pairs (w ∷ ws) readers = map (make_pair w) readers ++ make_pairs ws readers

  pub finish_topic : TopicSummary → TopicSummary
  finish_topic t =
      let pairs = make_pairs t.writers t.readers in
      record t {
        pairs = pairs;
        unmatched_reasons = t.unmatched_reasons ++ unmatched_codes t.writers t.readers pairs;
      }

  pub summarize : List Endpoint → List TopicSummary
  summarize endpoints =
      sort_topics (map (λ kv. finish_topic kv.1) (group_endpoints (pointers 0 endpoints) []))
