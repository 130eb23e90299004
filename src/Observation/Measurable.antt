-- ===== src/Observation/Measurable.antt =====
-- decision.cpp, `count_measurable_pairs`: one pass over the endpoints, with a count per process.
pub mod Reference
pub mod Topic
pub mod Recount
pub mod State
pub mod Equivalence
use fastdds_transport_viz.Prelude.{
  ℕ, ◌+◌, ◌-◌, ◌*◌, String, Bool, true, false, ◌≡◌, List, [], ◌∷◌, Option, none, some, str_eq,
  if◌then◌else◌, arith,
}
use fastdds_transport_viz.Prelude.Text.{str_lt}
use fastdds_transport_viz.Prelude.OrderedMap.{Key, lookup, insert}
use fastdds_transport_viz.Prelude.OrderedMap.Totals.{total}
use fastdds_transport_viz.Prelude.Keys.{text_key, str_eq_refl, str_eq_sym, str_eq_trans}
use fastdds_transport_viz.Model.Endpoints.{Endpoint, bytes_eq, bytes_eq_refl}
use fastdds_transport_viz.Decision.Locators.{has_text}
use fastdds_transport_viz.Decision.Verdicts.{first_bytes, is_eprosima}
use fastdds_transport_viz.Names.Nodes.{bytes_lt, bytes_same_sym, bytes_same_trans}

-- The text by which the source groups: 8 raw bytes, or the printed GUID, which is longer.
pub data ProcessKey : Type 0 where
  process : List ℕ → ProcessKey
  endpoint : String → ProcessKey

abbrev pub process_same : ProcessKey → ProcessKey → Bool
process_same (process a) (process b) = bytes_eq a b
process_same (endpoint a) (endpoint b) = str_eq a b
process_same _ _ = false

-- The order decides nothing but the order of a sum.
abbrev process_before : ProcessKey → ProcessKey → Bool
process_before (process a) (process b) = bytes_lt a b
process_before (process _) (endpoint _) = true
process_before (endpoint _) (process _) = false
process_before (endpoint a) (endpoint b) = str_lt a b

pub process_same_refl : (k : ProcessKey) → process_same k k ≡ true
process_same_refl (process a) = bytes_eq_refl a
process_same_refl (endpoint a) = str_eq_refl a

pub process_same_sym : (j k : ProcessKey) → process_same j k ≡ true → process_same k j ≡ true
process_same_sym (process a) (process b) h = bytes_same_sym a b h
process_same_sym (process a) (endpoint b) h = h
process_same_sym (endpoint a) (process b) h = h
process_same_sym (endpoint a) (endpoint b) h = str_eq_sym a b h

pub process_same_trans :
    (i j k : ProcessKey)
    → process_same i j ≡ true
    → process_same j k ≡ true
    → process_same i k ≡ true
process_same_trans (process a) (process b) (process c) h g = bytes_same_trans a b c h g
process_same_trans (endpoint a) (endpoint b) (endpoint c) h g = str_eq_trans a b c h g
process_same_trans (process a) (process b) (endpoint c) h g = g
process_same_trans (process a) (endpoint b) k h g = absurd (ground arith)
process_same_trans (endpoint a) (process b) k h g = absurd (ground arith)
process_same_trans (endpoint a) (endpoint b) (process c) h g = g

instance abbrev pub process_key_key : Key ProcessKey
process_key_key = record {
  same = process_same;
  before = process_before;
  same_refl = process_same_refl;
  same_sym = process_same_sym;
  same_trans = process_same_trans;
}

unfoldable pub process_key : Endpoint → ProcessKey
process_key e =
    if is_eprosima e.guid_bytes then process (first_bytes 8 e.guid_bytes) else endpoint e.guid

-- Writers and readers.
pub record Sides : Type 0 where
  pub writers : ℕ
  pub readers : ℕ

pub record TopicCounts : Type 0 where
  pub all_of : Sides
  pub by_process : List (ProcessKey × Sides)

abbrev no_sides : Sides
no_sides = record { writers = 0; readers = 0 }

abbrev pub or_no_sides : Option Sides → Sides
or_no_sides none = no_sides
or_no_sides (some c) = c

abbrev pub or_no_counts : Option TopicCounts → TopicCounts
or_no_counts none = record { all_of = no_sides; by_process = [] }
or_no_counts (some t) = t

abbrev pub raise : Bool → Sides → Sides
raise is_writer c =
    if is_writer then record c { writers = c.writers + 1 } else record c { readers = c.readers + 1 }

abbrev pub Topics : Type 0
Topics = List (String × TopicCounts)

pub raise_topic : Endpoint → TopicCounts → TopicCounts
raise_topic e t = record {
  all_of = raise e.is_writer t.all_of;
  by_process =
      insert (process_key e) (raise e.is_writer (or_no_sides (lookup (process_key e) t.by_process)))
        t.by_process;
}

-- One round over an endpoint that is not the tool's own.
pub count_endpoint : Endpoint → Topics → Topics
count_endpoint e topics =
    insert e.dds_topic (raise_topic e (or_no_counts (lookup e.dds_topic topics))) topics

pub count_endpoints : List String → List Endpoint → Topics → Topics
count_endpoints own_prefixes [] topics = topics
count_endpoints own_prefixes (e ∷ es) topics =
    count_endpoints own_prefixes es
      (if has_text e.participant_guid_prefix own_prefixes then topics else count_endpoint e topics)

-- `pc.second.first * pc.second.second`
abbrev pub product : Sides → ℕ
product c = c.writers * c.readers

pub same_process : List (ProcessKey × Sides) → ℕ
same_process by_process = total product by_process

pub topic_pairs : TopicCounts → ℕ
topic_pairs t = product t.all_of - same_process t.by_process

pub count_measurable_pairs : List Endpoint → List String → ℕ
count_measurable_pairs endpoints own_prefixes =
    total topic_pairs (count_endpoints own_prefixes endpoints [])
