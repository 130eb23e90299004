-- ===== src/Observation/Measurable/Reference.antt =====
-- The pairs counted one by one, and the arithmetic of one topic.
use fastdds_transport_viz.Prelude.{
  ℕ, ◌+◌, ◌*◌, ◌≤◌, Bool, ◌&&◌, not, ◌≡◌, List, [], ◌∷◌, String, str_eq, arith, count_if, keep_if,
}
use fastdds_transport_viz.Prelude.OrderedMap.Totals.{total}
use fastdds_transport_viz.Model.Endpoints.{Endpoint}
use fastdds_transport_viz.Decision.Locators.{has_text}
use fastdds_transport_viz.Observation.Measurable.{
  ProcessKey, process_same, process_key, process_key_key, Sides, product, same_process,
}

-- A writer and a reader of one topic in two processes.
abbrev pub meets : Endpoint → Endpoint → Bool
meets w r =
    w.is_writer
    && not r.is_writer
    && (str_eq w.dds_topic r.dds_topic && not (process_same (process_key w) (process_key r)))

abbrev pub pairs_of : List Endpoint → List Endpoint → ℕ
pairs_of [] rs = 0
pairs_of (w ∷ ws) rs = count_if (meets w) rs + pairs_of ws rs

-- The endpoints that are not the tool's own.
abbrev pub listed : List String → List Endpoint → List Endpoint
listed own_prefixes = keep_if (λ e. not (has_text e.participant_guid_prefix own_prefixes))

pub mul_suc : (a b : ℕ) → (a + 1) * b ≡ a * b + b
mul_suc a b = grind arith

pub mul_suc_right : (a b : ℕ) → a * (b + 1) ≡ a * b + a
mul_suc_right a b = grind arith

product_sum : (w r s a b : ℕ) → s ≤ a * b → w * r + s ≤ (w + a) * (r + b)
product_sum w r s a b h = grind arith

-- The pairs inside the processes are some of the pairs of the topic.
pub same_process_bounded :
    (m : List (ProcessKey × Sides))
    → same_process m ≤ total (λ c. c.writers) m * total (λ c. c.readers) m
unfolding same_process
same_process_bounded [] = omega arith
same_process_bounded ((k, c) ∷ m) =
    product_sum c.writers c.readers (total product m) (total (λ c. c.writers) m)
      (total (λ c. c.readers) m) (same_process_bounded m)
