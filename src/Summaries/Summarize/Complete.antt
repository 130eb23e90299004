-- ===== src/Summaries/Summarize/Complete.antt =====
-- No endpoint is lost or doubled by the grouping, and every pair of a topic is judged.
use fastdds_transport_viz.Prelude.{
  ℕ, ◌+◌, String, Bool, true, ◌≡◌, refl, ◌∙◌, ap, List, [], ◌∷◌, ◌++◌, All, map, arith, Bool-cases,
  count_if, inl, inr, str_eq,
}
use fastdds_transport_viz.Prelude.Text.{str_lt}
use fastdds_transport_viz.Prelude.OrderedMap.{
  lookup, insert, replace, place, has_key, has_key-lookup,
}
use fastdds_transport_viz.Prelude.Keys.{text_key}
use fastdds_transport_viz.Model.Endpoints.{Endpoint, EndpointPtr}
use fastdds_transport_viz.Model.Pairs.{Pair, TopicSummary}
use fastdds_transport_viz.Decision.Verdicts.{decide}
use fastdds_transport_viz.Summaries.Summarize.{
  Topics, or_new, name_topic, add_endpoint, group_endpoint, group_endpoints, pointers, make_pair,
  make_pairs, finish_topic, insert_topic, sort_topics, summarize,
}

module _ (test : EndpointPtr → Bool) where
  -- How many endpoints of a topic pass the test.
  abbrev in_topic : TopicSummary → ℕ
  in_topic t = count_if test t.writers + count_if test t.readers

  -- How many endpoints of all topics do.
  abbrev pub in_topics : List TopicSummary → ℕ
  in_topics [] = 0
  in_topics (t ∷ ts) = in_topic t + in_topics ts

  abbrev in_map : Topics → ℕ
  in_map [] = 0
  in_map ((k, t) ∷ m) = in_topic t + in_map m

  count_if-append :
      (xs ys : List EndpointPtr) → count_if test (xs ++ ys) ≡ count_if test xs + count_if test ys
  count_if-append [] ys = omega arith
  count_if-append (x ∷ xs) ys = omega (arith, count_if-append xs ys)

  in_map-replace :
      (k : String) (t : TopicSummary) (m : Topics)
      → has_key k m ≡ true
      → in_map (replace k t m) + in_topic (or_new (lookup k m)) ≡ in_map m + in_topic t
  unfolding replace has_key lookup
  in_map-replace k t [] h = absurd (ground arith)
  in_map-replace k t ((j, u) ∷ m) h = elim (Bool-cases (str_eq j k)) [
    | inl e ↦ rw e (omega arith)
    | inr e ↦ rw e (omega (arith, in_map-replace k t m (rw e at h)))
  ]

  in_map-place :
      (k : String) (t : TopicSummary) (m : Topics) → in_map (place k t m) ≡ in_map m + in_topic t
  unfolding place
  in_map-place k t [] = omega arith
  in_map-place k t ((j, u) ∷ m) = elim (Bool-cases (text_key.before k j)) [
    | inl e ↦ rw e (omega arith)
    | inr e ↦ rw e (omega (arith, in_map-place k t m))
  ]

  -- A write adds the new topic and takes out the old one.
  in_map-insert :
      (k : String) (t : TopicSummary) (m : Topics)
      → in_map (insert k t m) + in_topic (or_new (lookup k m)) ≡ in_map m + in_topic t
  unfolding insert
  in_map-insert k t m = elim (Bool-cases (has_key k m)) [
    | inl e ↦ rw e (in_map-replace k t m e)
    | inr e ↦ rw (e, (has_key-lookup k m).0 e) (omega (arith, in_map-place k t m))
  ]

  in_topic-add_endpoint :
      (p : EndpointPtr) (t : TopicSummary)
      → in_topic (add_endpoint p (name_topic p.target t)) ≡ in_topic t + count_if test (p ∷ [])
  unfolding add_endpoint name_topic
  in_topic-add_endpoint p t =
      ground (arith, count_if-append t.writers (p ∷ []), count_if-append t.readers (p ∷ []))

  in_map-group_endpoints :
      (ps : List EndpointPtr) (m : Topics)
      → in_map (group_endpoints ps m) ≡ in_map m + count_if test ps
  unfolding group_endpoints group_endpoint
  in_map-group_endpoints [] m = omega arith
  in_map-group_endpoints (p ∷ ps) m =
      let t = or_new (lookup p.target.dds_topic m) in
      let t' = add_endpoint p (name_topic p.target t) in
      omega (
        arith,
        in_map-group_endpoints ps (insert p.target.dds_topic t' m),
        in_map-insert p.target.dds_topic t' m,
        in_topic-add_endpoint p t,
      )

  in_topics-insert_topic :
      (t : TopicSummary) (ts : List TopicSummary)
      → in_topics (insert_topic t ts) ≡ in_topic t + in_topics ts
  unfolding insert_topic
  in_topics-insert_topic t [] = refl
  in_topics-insert_topic t (u ∷ us) = ground (arith, in_topics-insert_topic t us)

  in_topics-sort_topics : (ts : List TopicSummary) → in_topics (sort_topics ts) ≡ in_topics ts
  unfolding sort_topics
  in_topics-sort_topics [] = refl
  in_topics-sort_topics (t ∷ ts) =
      omega (arith, in_topics-insert_topic t (sort_topics ts), in_topics-sort_topics ts)

  module _ (fnmatch : String → String → Bool) where
    in_topics-finish_topic :
        (m : Topics) → in_topics (map (λ kv. finish_topic fnmatch kv.1) m) ≡ in_map m
    unfolding finish_topic
    in_topics-finish_topic [] = refl
    in_topics-finish_topic ((k, t) ∷ m) = omega (arith, in_topics-finish_topic m)

    -- For every test on endpoints: as many endpoints of the topics pass it as of the discovered
    -- ones. With a test for one place in the vector, each endpoint stands in one topic, once.
    pub summarize-count :
        (endpoints : List Endpoint)
        → in_topics (summarize fnmatch endpoints) ≡ count_if test (pointers 0 endpoints)
    unfolding summarize
    summarize-count endpoints =
        in_topics-sort_topics _
        ∙ in_topics-finish_topic (group_endpoints (pointers 0 endpoints) [])
        ∙ in_map-group_endpoints (pointers 0 endpoints) []
        ∙ omega arith

module _ (fnmatch : String → String → Bool) where
  abbrev pub ends_of : List Pair → List (EndpointPtr × EndpointPtr)
  ends_of = map (λ p. (p.writer, p.reader))

  -- Every writer with every reader, the writers in the outer loop.
  abbrev pub product : List EndpointPtr → List EndpointPtr → List (EndpointPtr × EndpointPtr)
  product [] rs = []
  product (w ∷ ws) rs = map (λ r. (w, r)) rs ++ product ws rs

  -- The pair carries the prediction for its two ends, and has not been measured.
  abbrev IsPredicted : Pair → Type 0
  IsPredicted p = p.verdict.transport ≡ (decide fnmatch p.writer.target p.reader.target).transport

  ends_of-row :
      (w : EndpointPtr) (rs : List EndpointPtr) (ps : List Pair)
      → ends_of (map (make_pair fnmatch w) rs ++ ps) ≡ map (λ r. (w, r)) rs ++ ends_of ps
  unfolding make_pair
  ends_of-row w [] ps = refl
  ends_of-row w (r ∷ rs) ps = cc (ends_of-row w rs ps)

  ends_of-make_pairs :
      (ws rs : List EndpointPtr) → ends_of (make_pairs fnmatch ws rs) ≡ product ws rs
  unfolding make_pairs
  ends_of-make_pairs [] rs = refl
  ends_of-make_pairs (w ∷ ws) rs =
      ends_of-row w rs (make_pairs fnmatch ws rs)
      ∙ ap (λ (es : List (EndpointPtr × EndpointPtr)). map (λ r. (w, r)) rs ++ es)
          (ends_of-make_pairs ws rs)

  -- What holds of each finished topic holds of the summaries.
  pub record IsJudged (t : TopicSummary) : Type 0 where
    pub pairs : ends_of t.pairs ≡ product t.writers t.readers
    pub verdicts : All IsPredicted t.pairs

  row-IsPredicted :
      (w : EndpointPtr) (rs : List EndpointPtr) (ps : List Pair)
      → All IsPredicted ps
      → All IsPredicted (map (make_pair fnmatch w) rs ++ ps)
  unfolding make_pair
  row-IsPredicted w [] ps h = h
  row-IsPredicted w (r ∷ rs) ps h = (refl, row-IsPredicted w rs ps h)

  make_pairs-IsPredicted : (ws rs : List EndpointPtr) → All IsPredicted (make_pairs fnmatch ws rs)
  unfolding make_pairs
  make_pairs-IsPredicted [] rs = tt
  make_pairs-IsPredicted (w ∷ ws) rs = row-IsPredicted w rs _ (make_pairs-IsPredicted ws rs)

  finish_topic-IsJudged : (t : TopicSummary) → IsJudged (finish_topic fnmatch t)
  unfolding finish_topic
  finish_topic-IsJudged t = record {
    pairs = ends_of-make_pairs t.writers t.readers;
    verdicts = make_pairs-IsPredicted t.writers t.readers;
  }

  insert_topic-IsJudged :
      (t : TopicSummary) (ts : List TopicSummary)
      → IsJudged t
      → All IsJudged ts
      → All IsJudged (insert_topic t ts)
  unfolding insert_topic
  insert_topic-IsJudged t [] h hs = (h, tt)
  insert_topic-IsJudged t (u ∷ us) h (k, ks) =
      elim (Bool-cases (str_lt u.display_topic t.display_topic)) [
        | inl e ↦ rw e (k, insert_topic-IsJudged t us h ks)
        | inr e ↦ rw e (h, (k, ks))
      ]

  summaries-IsJudged :
      (m : Topics) → All IsJudged (sort_topics (map (λ kv. finish_topic fnmatch kv.1) m))
  unfolding sort_topics
  summaries-IsJudged [] = tt
  summaries-IsJudged ((k, t) ∷ m) =
      insert_topic-IsJudged _ _ (finish_topic-IsJudged t) (summaries-IsJudged m)

  -- Each summary has a pair for every writer with every reader of its topic, in that order and no
  -- other, and each pair's transport is the predicted one.
  pub summarize-IsJudged : (endpoints : List Endpoint) → All IsJudged (summarize fnmatch endpoints)
  unfolding summarize
  summarize-IsJudged endpoints = summaries-IsJudged (group_endpoints (pointers 0 endpoints) [])
