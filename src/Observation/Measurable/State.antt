-- ===== src/Observation/Measurable/State.antt =====
-- The counts that the map holds for a topic and for a process of it.
use fastdds_transport_viz.Prelude.{
  ℕ, ◌+◌, Bool, true, false, ◌&&◌, ◌≡◌, refl, ap, ◌∙◌, List, String, str_eq, eq_iff, arith,
  count_if, if◌then◌else◌, Bool-cases, inl, inr,
}
use fastdds_transport_viz.Prelude.OrderedMap.{lookup, lookup-insert}
use fastdds_transport_viz.Prelude.OrderedMap.Totals.{total}
use fastdds_transport_viz.Prelude.Keys.{text_key}
use fastdds_transport_viz.Model.Endpoints.{Endpoint, bytes_eq_sound}
use fastdds_transport_viz.Observation.Measurable.{
  ProcessKey, process, endpoint, process_same, process_key, process_key_key, Sides, TopicCounts,
  Topics, raise, or_no_sides, or_no_counts, raise_topic, count_endpoint, topic_pairs,
}
use fastdds_transport_viz.Observation.Measurable.Reference.{pairs_of}
use fastdds_transport_viz.Observation.Measurable.Topic.{IsSummed}
use fastdds_transport_viz.Observation.Measurable.Recount.{same_side, on_side, in_process}

abbrev pub counts : String → Topics → TopicCounts
counts topic topics = or_no_counts (lookup topic topics)

abbrev pub sides : ProcessKey → TopicCounts → Sides
sides k t = or_no_sides (lookup k t.by_process)

abbrev pub of_side : Bool → Sides → ℕ
of_side true c = c.writers
of_side false c = c.readers

-- The map after the endpoints in `seen`.
pub record Agrees (seen : List Endpoint) (topics : Topics) : Type 0 where
  pub all_of :
      (topic : String) (side : Bool)
      → of_side side (counts topic topics).all_of ≡ count_if (on_side topic side) seen
  pub within :
      (topic : String) (side : Bool) (k : ProcessKey)
      → of_side side (sides k (counts topic topics))
        ≡ count_if (λ x. on_side topic side x && in_process k x) seen
  pub summed : (topic : String) → IsSummed (counts topic topics)
  pub value : total topic_pairs topics ≡ pairs_of seen seen

pub of_side-raise :
    (side is_writer : Bool) (c : Sides)
    → of_side side (raise is_writer c)
      ≡ of_side side c + (if same_side side is_writer then 1 else 0)
of_side-raise side is_writer c = ground arith

process_same_sound : (j k : ProcessKey) → process_same j k ≡ true → j ≡ k
process_same_sound (process a) (process b) h = ap process (bytes_eq_sound a b h)
process_same_sound (process a) (endpoint b) h = absurd (ground arith)
process_same_sound (endpoint a) (process b) h = absurd (ground arith)
process_same_sound (endpoint a) (endpoint b) h = ap endpoint ((eq_iff a b).0 h)

pub sides-raise_topic :
    (k : ProcessKey) (e : Endpoint) (t : TopicCounts)
    → sides k (raise_topic e t)
      ≡ (if process_same (process_key e) k then raise e.is_writer (sides k t) else sides k t)
unfolding raise_topic
sides-raise_topic k e t = elim (Bool-cases (process_same (process_key e) k)) [
  | inl h ↦
      ap or_no_sides
        (lookup-insert (process_key e) k (raise e.is_writer (sides (process_key e) t)) t.by_process)
      ∙ rw h (
          ap (λ (j : ProcessKey). raise e.is_writer (sides j t))
            (process_same_sound (process_key e) k h))
  | inr h ↦
      ap or_no_sides
        (lookup-insert (process_key e) k (raise e.is_writer (sides (process_key e) t)) t.by_process)
      ∙ rw h refl
]

pub counts-count_endpoint :
    (topic : String) (e : Endpoint) (topics : Topics)
    → counts topic (count_endpoint e topics) ≡ (
        if str_eq e.dds_topic topic
        then raise_topic e (counts topic topics)
        else counts topic topics)
unfolding count_endpoint
counts-count_endpoint topic e topics =
    let new = raise_topic e (counts e.dds_topic topics) in
    let step = ap or_no_counts (lookup-insert e.dds_topic topic new topics) in
    elim (Bool-cases (str_eq e.dds_topic topic)) [
      | inl h ↦
          step
          ∙ rw h (
              ap (λ (d : String). raise_topic e (counts d topics)) ((eq_iff e.dds_topic topic).0 h))
      | inr h ↦ step ∙ rw h refl
    ]
