-- ===== src/Observation/Measurable/Equivalence.antt =====
-- The pass over the endpoints counts the pairs.
use fastdds_transport_viz.Prelude.{
  Bool, true, false, ◌&&◌, not, ◌≡◌, refl, sym, List, [], ◌∷◌, ◌++◌, String, str_eq, Option, none,
  some, arith, count_if, if◌then◌else◌, append_assoc, append-nil, subst,
}
use fastdds_transport_viz.Prelude.OrderedMap.{lookup}
use fastdds_transport_viz.Prelude.OrderedMap.Totals.{total, at, total-insert}
use fastdds_transport_viz.Prelude.Keys.{text_key}
use fastdds_transport_viz.Model.Endpoints.{Endpoint}
use fastdds_transport_viz.Decision.Locators.{has_text}
use fastdds_transport_viz.Observation.Measurable.{
  ProcessKey, process_key, process_key_key, TopicCounts, Topics, or_no_counts, raise_topic,
  count_endpoint, count_endpoints, topic_pairs, same_process, count_measurable_pairs,
}
use fastdds_transport_viz.Observation.Measurable.Reference.{pairs_of, listed}
use fastdds_transport_viz.Observation.Measurable.Topic.{
  IsSummed, others, raise_topic-IsSummed, topic_pairs-raise_topic,
}
use fastdds_transport_viz.Observation.Measurable.Recount.{
  on_side, in_process, pairs_with, count_if-append, count_if_split, pairs_of-grow,
}
use fastdds_transport_viz.Observation.Measurable.State.{
  counts, sides, of_side, Agrees, of_side-raise, sides-raise_topic, counts-count_endpoint,
}

step-all_of :
    (seen : List Endpoint) (topics : Topics) (e : Endpoint)
    → Agrees seen topics
    → (topic : String) (side : Bool)
    → of_side side (counts topic (count_endpoint e topics)).all_of
      ≡ count_if (on_side topic side) (seen ++ e ∷ [])
unfolding raise_topic
step-all_of seen topics e h topic side = ground (
  arith,
  counts-count_endpoint topic e topics,
  count_if-append (on_side topic side) seen e,
  of_side-raise side e.is_writer (counts topic topics).all_of,
  h.all_of topic side,
)

step-within :
    (seen : List Endpoint) (topics : Topics) (e : Endpoint)
    → Agrees seen topics
    → (topic : String) (side : Bool) (k : ProcessKey)
    → of_side side (sides k (counts topic (count_endpoint e topics)))
      ≡ count_if (λ x. on_side topic side x && in_process k x) (seen ++ e ∷ [])
step-within seen topics e h topic side k = ground (
  arith,
  counts-count_endpoint topic e topics,
  sides-raise_topic k e (counts topic topics),
  count_if-append (λ x. on_side topic side x && in_process k x) seen e,
  of_side-raise side e.is_writer (sides k (counts topic topics)),
  h.within topic side k,
)

step-IsSummed :
    (seen : List Endpoint) (topics : Topics) (e : Endpoint)
    → Agrees seen topics
    → (topic : String) → IsSummed (counts topic (count_endpoint e topics))
step-IsSummed seen topics e h topic =
    rw (counts-count_endpoint topic e topics) (cases (str_eq e.dds_topic topic))
  where
    cases :
        (b : Bool)
        → IsSummed (if b then raise_topic e (counts topic topics) else counts topic topics)
    cases true = raise_topic-IsSummed e (counts topic topics) (h.summed topic)
    cases false = h.summed topic

others-count :
    (seen : List Endpoint) (topics : Topics) (e : Endpoint)
    → Agrees seen topics
    → others e (counts e.dds_topic topics) ≡ count_if (pairs_with e) seen
others-count seen topics e h =
    let side = not e.is_writer in
    ground (
      arith,
      h.all_of e.dds_topic side,
      h.within e.dds_topic side (process_key e),
      count_if_split (on_side e.dds_topic side) (in_process (process_key e)) seen,
    )

at_counts : (o : Option TopicCounts) → at topic_pairs o ≡ topic_pairs (or_no_counts o)
unfolding topic_pairs same_process
at_counts none = refl
at_counts (some t) = refl

step-value :
    (seen : List Endpoint) (topics : Topics) (e : Endpoint)
    → Agrees seen topics
    → total topic_pairs (count_endpoint e topics) ≡ pairs_of (seen ++ e ∷ []) (seen ++ e ∷ [])
unfolding count_endpoint
step-value seen topics e h =
    let t = counts e.dds_topic topics in
    omega (
      arith,
      total-insert topic_pairs e.dds_topic (raise_topic e t) topics,
      at_counts (lookup e.dds_topic topics),
      topic_pairs-raise_topic e t (h.summed e.dds_topic),
      others-count seen topics e h,
      pairs_of-grow seen e,
      h.value,
    )

step-Agrees :
    (seen : List Endpoint) (topics : Topics) (e : Endpoint)
    → Agrees seen topics
    → Agrees (seen ++ e ∷ []) (count_endpoint e topics)
step-Agrees seen topics e h = record {
  all_of = step-all_of seen topics e h;
  within = step-within seen topics e h;
  summed = step-IsSummed seen topics e h;
  value = step-value seen topics e h;
}

count_endpoints-Agrees :
    (own_prefixes : List String) (es seen : List Endpoint) (topics : Topics)
    → Agrees seen topics
    → Agrees (seen ++ listed own_prefixes es) (count_endpoints own_prefixes es topics)
unfolding count_endpoints
count_endpoints-Agrees own_prefixes [] seen topics h =
    subst (λ (xs : List Endpoint). Agrees xs topics) (sym (append-nil seen)) h
count_endpoints-Agrees own_prefixes (e ∷ es) seen topics h =
    cases (has_text e.participant_guid_prefix own_prefixes)
      (count_endpoints-Agrees own_prefixes es seen topics h)
      (subst
        (λ (xs : List Endpoint).
          Agrees xs (count_endpoints own_prefixes es (count_endpoint e topics)))
        (append_assoc seen (e ∷ []) (listed own_prefixes es))
        (count_endpoints-Agrees own_prefixes es (seen ++ e ∷ []) (count_endpoint e topics)
          (step-Agrees seen topics e h)))
  where
    cases :
        (b : Bool)
        → Agrees (seen ++ listed own_prefixes es) (count_endpoints own_prefixes es topics)
        → Agrees
            (seen ++ e ∷ listed own_prefixes es)
            (count_endpoints own_prefixes es (count_endpoint e topics))
        → Agrees
            (seen ++ (if not b then e ∷ listed own_prefixes es else listed own_prefixes es))
            (count_endpoints own_prefixes es (if b then topics else count_endpoint e topics))
    cases true skipped counted = skipped
    cases false skipped counted = counted

nothing-Agrees : Agrees [] []
unfolding lookup
nothing-Agrees = record {
  all_of = λ topic side. ground arith;
  within = λ topic side k. ground arith;
  summed = λ topic. record { writers = refl; readers = refl };
  value = refl;
}

-- The count is the number of the pairs of a writer and a reader of one topic, neither of them
-- the tool's own, that live in two processes.
pub count_measurable_pairs-pairs_of :
    (endpoints : List Endpoint) (own_prefixes : List String)
    → count_measurable_pairs endpoints own_prefixes
      ≡ pairs_of (listed own_prefixes endpoints) (listed own_prefixes endpoints)
unfolding count_measurable_pairs
count_measurable_pairs-pairs_of endpoints own_prefixes =
    (count_endpoints-Agrees own_prefixes endpoints [] [] nothing-Agrees).value
