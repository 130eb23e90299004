-- ===== src/Summaries/Filter/Kept.antt =====
-- What `filter_by_node` keeps, and that a second filter by the same nodes changes nothing.
use fastdds_transport_viz.Prelude.{
  Bool, true, ◌≡◌, inl, inr, refl, sym, ◌∙◌, ap, ap₂, List, [], ◌∷◌, ◌++◌, is_empty, keep_if, arith,
  Bool-cases, In, In-any, In-append_left, keep_if-In,
}
use fastdds_transport_viz.Model.Endpoints.{Endpoint, EndpointPtr}
use fastdds_transport_viz.Model.Pairs.{Pair, TopicSummary}
use fastdds_transport_viz.Summaries.Summarize.{unmatched_codes}
use fastdds_transport_viz.Summaries.Filter.{
  same_ptr, has_ptr, matching, kept_pairs, keep, prune_to, prune_topic, filter_by_node,
}

has_ptr-In : (p : EndpointPtr) (ps : List EndpointPtr) → In p ps → has_ptr p ps ≡ true
has_ptr-In p ps m = In-any (λ q. same_ptr q p) ps p m (ground arith)

keep_if-append :
    {A : Type 0} (test : A → Bool) (xs ys : List A)
    → keep_if test (xs ++ ys) ≡ keep_if test xs ++ keep_if test ys
keep_if-append test [] ys = refl
keep_if-append test (x ∷ xs) ys = ground (arith, keep_if-append test xs ys)

keep_if_twice :
    {A : Type 0} (test : A → Bool) (xs : List A) → keep_if test (keep_if test xs) ≡ keep_if test xs
keep_if_twice test [] = refl
keep_if_twice test (x ∷ xs) = ground (arith, keep_if_twice test xs)

-- A weaker test first takes nothing from a stronger one.
keep_if_weaker :
    {A : Type 0} (test weaker : A → Bool) (xs : List A)
    → ((x : A) → In x xs → test x ≡ true → weaker x ≡ true)
    → keep_if test (keep_if weaker xs) ≡ keep_if test xs
keep_if_weaker test weaker [] h = refl
keep_if_weaker test weaker (x ∷ xs) h =
    ground (arith, keep_if_weaker test weaker xs (λ y m. h y (inr m)), h x (inl refl))

prune_to_twice :
    (kept : List EndpointPtr) (pairs : List Pair) (t : TopicSummary)
    → prune_to kept pairs (prune_to kept pairs t) ≡ prune_to kept pairs t
prune_to_twice kept pairs t =
    let again = λ (writers readers : List EndpointPtr). record t {
      writers = writers;
      readers = readers;
      pairs = pairs;
      unmatched_reasons = unmatched_codes writers readers pairs;
    } in
    ap₂ again (keep_if_twice _ t.writers) (keep_if_twice _ t.readers)

module _ (node_matches : Endpoint → Bool) where
  matching_kept :
      (t : TopicSummary) (p : EndpointPtr)
      → In p (t.writers ++ t.readers)
      → node_matches p.target ≡ true
      → has_ptr p (keep node_matches t) ≡ true
  unfolding keep matching
  matching_kept t p m h =
      has_ptr-In p _
        (In-append_left p _ _ (keep_if-In (λ (q : EndpointPtr). node_matches q.target) _ p m h))

  matching-prune :
      (t : TopicSummary)
      → matching node_matches (prune_topic node_matches t) ≡ matching node_matches t
  unfolding prune_topic matching
  matching-prune t =
      let test = λ (p : EndpointPtr). node_matches p.target in
      let kept = λ (p : EndpointPtr). has_ptr p (keep node_matches t) in
      ap (keep_if test) (sym (keep_if-append kept t.writers t.readers))
      ∙ keep_if_weaker test kept (t.writers ++ t.readers) (matching_kept t)

  kept_pairs-prune :
      (t : TopicSummary)
      → kept_pairs node_matches (prune_topic node_matches t) ≡ kept_pairs node_matches t
  kept_pairs-prune t = rw (matching-prune t) (unfold prune_topic in keep_if_twice _ t.pairs)

  keep-prune :
      (t : TopicSummary) → keep node_matches (prune_topic node_matches t) ≡ keep node_matches t
  unfolding keep
  keep-prune t = rw (kept_pairs-prune t, matching-prune t)

  prune_topic-twice :
      (t : TopicSummary)
      → prune_topic node_matches (prune_topic node_matches t) ≡ prune_topic node_matches t
  unfolding prune_topic
  prune_topic-twice t =
      let p = prune_to (keep node_matches t) (kept_pairs node_matches t) t in
      ap₂ (λ (kept : List EndpointPtr) (pairs : List Pair). prune_to kept pairs p) (keep-prune t)
        (kept_pairs-prune t)
      ∙ prune_to_twice (keep node_matches t) (kept_pairs node_matches t) t

  -- Filtering by the same nodes a second time changes nothing.
  pub filter_by_node-twice :
      (ts : List TopicSummary)
      → filter_by_node node_matches (filter_by_node node_matches ts)
        ≡ filter_by_node node_matches ts
  unfolding filter_by_node
  filter_by_node-twice [] = refl
  filter_by_node-twice (t ∷ ts) = elim (Bool-cases (is_empty (keep node_matches t))) [
    | inl e ↦ rw e (filter_by_node-twice ts)
    | inr e ↦ rw e (rw (keep-prune t, e) (rw (prune_topic-twice t, filter_by_node-twice ts)))
  ]
