-- ===== src/Observation/Measurable/Topic.antt =====
-- What one more endpoint adds to the pairs of a topic.
use fastdds_transport_viz.Prelude.{
  ℕ, ◌+◌, ◌-◌, ◌*◌, ◌≤◌, Bool, true, false, ◌≡◌, refl, sym, Option, none, some, arith,
  if◌then◌else◌,
}
use fastdds_transport_viz.Prelude.OrderedMap.{lookup}
use fastdds_transport_viz.Prelude.OrderedMap.Totals.{total, at, total-insert, at_bounded}
use fastdds_transport_viz.Model.Endpoints.{Endpoint}
use fastdds_transport_viz.Observation.Measurable.{
  process_key, process_key_key, Sides, TopicCounts, raise, product, or_no_sides, raise_topic,
  topic_pairs, same_process,
}
use fastdds_transport_viz.Observation.Measurable.Reference.{
  same_process_bounded, mul_suc, mul_suc_right,
}

-- The counts of the topic are the sums of those of its processes.
pub record IsSummed (t : TopicCounts) : Type 0 where
  pub writers : total (λ c. c.writers) t.by_process ≡ t.all_of.writers
  pub readers : total (λ c. c.readers) t.by_process ≡ t.all_of.readers

abbrev own_sides : Endpoint → TopicCounts → Sides
own_sides e t = or_no_sides (lookup (process_key e) t.by_process)

-- The endpoints of the other side, less those of the same process.
abbrev pub others : Endpoint → TopicCounts → ℕ
others e t =
    if e.is_writer
    then t.all_of.readers - (own_sides e t).readers
    else t.all_of.writers - (own_sides e t).writers

at_writers : (o : Option Sides) → at (λ c. c.writers) o ≡ (or_no_sides o).writers
at_writers none = refl
at_writers (some c) = refl

at_readers : (o : Option Sides) → at (λ c. c.readers) o ≡ (or_no_sides o).readers
at_readers none = refl
at_readers (some c) = refl

at-product : (o : Option Sides) → at product o ≡ product (or_no_sides o)
at-product none = refl
at-product (some c) = refl

pub raise_topic-IsSummed :
    (e : Endpoint) (t : TopicCounts) → IsSummed t → IsSummed (raise_topic e t)
unfolding raise_topic
raise_topic-IsSummed e t h =
    let o = lookup (process_key e) t.by_process in
    let new = raise e.is_writer (or_no_sides o) in
    record {
      writers = ground (
        arith,
        total-insert (λ (c : Sides). c.writers) (process_key e) new t.by_process,
        at_writers o,
        h.writers,
      );
      readers = ground (
        arith,
        total-insert (λ (c : Sides). c.readers) (process_key e) new t.by_process,
        at_readers o,
        h.readers,
      );
    }

-- The arithmetic of both cases: `w` and `r` of one process, `a` and `b` of the topic.
raise_arith :
    (w r a b s s' : ℕ)
    → s' + w * r ≡ s + (w + 1) * r
    → s ≤ a * b
    → r ≤ b
    → (a + 1) * b - s' ≡ a * b - s + (b - r)
raise_arith w r a b s s' h k l = omega (arith, mul_suc w r, mul_suc a b)

raise_arith_right :
    (w r a b s s' : ℕ)
    → s' + w * r ≡ s + w * (r + 1)
    → s ≤ a * b
    → w ≤ a
    → a * (b + 1) - s' ≡ a * b - s + (a - w)
raise_arith_right w r a b s s' h k l = omega (arith, mul_suc_right w r, mul_suc_right a b)

bounded_same_process : (t : TopicCounts) → IsSummed t → same_process t.by_process ≤ product t.all_of
bounded_same_process t h = rw (sym h.writers, sym h.readers) (same_process_bounded t.by_process)

bounded_readers :
    (e : Endpoint) (t : TopicCounts) → IsSummed t → (own_sides e t).readers ≤ t.all_of.readers
bounded_readers e t h =
    let o = lookup (process_key e) t.by_process in
    omega (
      arith,
      at_bounded (λ (c : Sides). c.readers) (process_key e) t.by_process,
      at_readers o,
      h.readers,
    )

bounded_writers :
    (e : Endpoint) (t : TopicCounts) → IsSummed t → (own_sides e t).writers ≤ t.all_of.writers
bounded_writers e t h =
    let o = lookup (process_key e) t.by_process in
    omega (
      arith,
      at_bounded (λ (c : Sides). c.writers) (process_key e) t.by_process,
      at_writers o,
      h.writers,
    )

same_process-raise :
    (e : Endpoint) (t : TopicCounts)
    → same_process (raise_topic e t).by_process + product (own_sides e t)
      ≡ same_process t.by_process + product (raise e.is_writer (own_sides e t))
unfolding same_process raise_topic
same_process-raise e t =
    let o = lookup (process_key e) t.by_process in
    let new = raise e.is_writer (or_no_sides o) in
    omega (arith, total-insert product (process_key e) new t.by_process, at-product o)

raise_cases :
    (is_writer : Bool) (own all : Sides) (s s' : ℕ)
    → s' + product own ≡ s + product (raise is_writer own)
    → s ≤ product all
    → own.readers ≤ all.readers
    → own.writers ≤ all.writers
    → product (raise is_writer all) - s'
      ≡ product all
        - s
        + (if is_writer then all.readers - own.readers else all.writers - own.writers)
raise_cases true own all s s' k b r w =
    raise_arith own.writers own.readers all.writers all.readers s s' k b r
raise_cases false own all s s' k b r w =
    raise_arith_right own.writers own.readers all.writers all.readers s s' k b w

pub topic_pairs-raise_topic :
    (e : Endpoint) (t : TopicCounts)
    → IsSummed t
    → topic_pairs (raise_topic e t) ≡ topic_pairs t + others e t
unfolding topic_pairs raise_topic
topic_pairs-raise_topic e t h =
    raise_cases e.is_writer (own_sides e t) t.all_of (same_process t.by_process)
      (same_process (raise_topic e t).by_process) (same_process-raise e t)
      (bounded_same_process t h) (bounded_readers e t h) (bounded_writers e t h)
