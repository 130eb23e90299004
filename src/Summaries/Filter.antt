-- ===== src/Summaries/Filter.antt =====
-- decision.cpp: `filter_by_node` and `in_default_view`. The sets of pointers are lists that are
-- read by membership of the place alone.
pub mod Kept
use fastdds_transport_viz.Prelude.{
  ℕ, String, Bool, true, false, ◌||◌, ◌&&◌, not, List, [], ◌∷◌, ◌++◌, any, all, if◌then◌else◌, ◌==◌,
  is_empty, keep_if,
}
use fastdds_transport_viz.Prelude.Text.{str_is_empty, strip_prefix, is_some}
use fastdds_transport_viz.Model.Endpoints.{Endpoint, EndpointPtr}
use fastdds_transport_viz.Model.Pairs.{Pair, TopicSummary}
use fastdds_transport_viz.Summaries.Summarize.{unmatched_codes}

abbrev pub same_ptr : EndpointPtr → EndpointPtr → Bool
same_ptr p q = p.place == q.place

-- `set.count(p) > 0`
abbrev pub has_ptr : EndpointPtr → List EndpointPtr → Bool
has_ptr p = any (λ q. same_ptr q p)

-- `prune` of both lists, and the pairs and reasons that are left.
abbrev pub prune_to : List EndpointPtr → List Pair → TopicSummary → TopicSummary
prune_to kept pairs t =
    let writers = keep_if (λ p. has_ptr p kept) t.writers in
    let readers = keep_if (λ p. has_ptr p kept) t.readers in
    record t {
      writers = writers;
      readers = readers;
      pairs = pairs;
      unmatched_reasons = unmatched_codes writers readers pairs;
    }

module _ (node_matches : Endpoint → Bool) where
  -- `matching`
  pub matching : TopicSummary → List EndpointPtr
  matching t = keep_if (λ p. node_matches p.target) (t.writers ++ t.readers)

  abbrev pub kept_pairs : TopicSummary → List Pair
  kept_pairs t =
      keep_if (λ p. has_ptr p.writer (matching t) || has_ptr p.reader (matching t)) t.pairs

  -- `keep`: the matching endpoints, and both ends of the kept pairs.
  abbrev pub ends_of : List Pair → List EndpointPtr
  ends_of [] = []
  ends_of (p ∷ ps) = p.writer ∷ p.reader ∷ ends_of ps

  pub keep : TopicSummary → List EndpointPtr
  keep t = matching t ++ ends_of (kept_pairs t)

  pub prune_topic : TopicSummary → TopicSummary
  prune_topic t = prune_to (keep t) (kept_pairs t) t

  pub filter_by_node : List TopicSummary → List TopicSummary
  filter_by_node [] = []
  filter_by_node (t ∷ ts) =
      if is_empty (keep t) then filter_by_node ts else prune_topic t ∷ filter_by_node ts

abbrev is_folded : EndpointPtr → Bool
is_folded p = not (str_is_empty p.target.buffer_parent_guid)

unfoldable pub in_default_view : TopicSummary → Bool
in_default_view topic =
    if not topic.is_ros_topic || not (is_some (strip_prefix "rt/" topic.dds_topic))
    then false
    else if is_empty topic.writers && is_empty topic.readers
    then true
    else not (all is_folded topic.writers && all is_folded topic.readers)
