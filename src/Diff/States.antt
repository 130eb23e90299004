-- ===== src/Diff/States.antt =====
-- decision.cpp: the key and the state of a pair. A key is compared by its first three parts; the
-- node names that it carries are no part of its identity.
use fastdds_transport_viz.Prelude.{
  String, Bool, true, false, ◌||◌, ◌&&◌, List, [], ◌∷◌, str_eq, map, ◌≡◌, arith,
}
use fastdds_transport_viz.Prelude.Text.{str_lt}
use fastdds_transport_viz.Prelude.OrderedMap.{Key, insert}
use fastdds_transport_viz.Prelude.Keys.{str_eq_refl, str_eq_sym, str_eq_trans}
use fastdds_transport_viz.Model.Kinds.{Transport, Confidence, transport_eq, confidence_eq}
use fastdds_transport_viz.Model.Endpoints.{Locator, locator_eq}
use fastdds_transport_viz.Model.Pairs.{Pair, TopicSummary}

pub record PairKey : Type 0 where
  pub topic : String
  pub writer_guid : String
  pub reader_guid : String
  pub writer_node : String
  pub reader_node : String

-- `PairKey::operator==`
abbrev pub key_same : PairKey → PairKey → Bool
key_same a b =
    str_eq a.topic b.topic
    && str_eq a.writer_guid b.writer_guid
    && str_eq a.reader_guid b.reader_guid

-- `PairKey::operator<`
abbrev key_before : PairKey → PairKey → Bool
key_before a b =
    str_lt a.topic b.topic
    || (str_eq a.topic b.topic
        && (str_lt a.writer_guid b.writer_guid
            || (str_eq a.writer_guid b.writer_guid && str_lt a.reader_guid b.reader_guid)))

pub key_same_refl : (k : PairKey) → key_same k k ≡ true
key_same_refl k =
    ground (arith, str_eq_refl k.topic, str_eq_refl k.writer_guid, str_eq_refl k.reader_guid)

pub key_same_sym : (a b : PairKey) → key_same a b ≡ true → key_same b a ≡ true
key_same_sym a b h = ground (
  arith,
  str_eq_sym a.topic b.topic,
  str_eq_sym a.writer_guid b.writer_guid,
  str_eq_sym a.reader_guid b.reader_guid,
)

pub key_same_trans :
    (a b c : PairKey) → key_same a b ≡ true → key_same b c ≡ true → key_same a c ≡ true
key_same_trans a b c h k = ground (
  arith,
  str_eq_trans a.topic b.topic c.topic,
  str_eq_trans a.writer_guid b.writer_guid c.writer_guid,
  str_eq_trans a.reader_guid b.reader_guid c.reader_guid,
)

instance abbrev pub pair_key_key : Key PairKey
pair_key_key = record {
  same = key_same;
  before = key_before;
  same_refl = key_same_refl;
  same_sym = key_same_sym;
  same_trans = key_same_trans;
}

pub record PairState : Type 0 where
  pub transport : Transport
  pub confidence : Confidence
  pub measured : List Transport
  pub locator : Locator
  pub measured_locators : List Locator
  pub warnings : List String

-- `==` on vectors.
abbrev pub list_eq {ℓ} : {A : Type ℓ} → (A → A → Bool) → List A → List A → Bool
list_eq eq [] [] = true
list_eq eq (x ∷ xs) (y ∷ ys) = eq x y && list_eq eq xs ys
list_eq eq _ _ = false

-- `PairState::operator==`
unfoldable pub state_eq : PairState → PairState → Bool
state_eq a b =
    transport_eq a.transport b.transport
    && confidence_eq a.confidence b.confidence
    && list_eq transport_eq a.measured b.measured
    && locator_eq a.locator b.locator
    && list_eq locator_eq a.measured_locators b.measured_locators
    && list_eq str_eq a.warnings b.warnings

unfoldable pub pair_key : TopicSummary → Pair → PairKey
pair_key topic pair = record {
  topic = topic.display_topic;
  writer_guid = pair.writer.target.guid;
  reader_guid = pair.reader.target.guid;
  writer_node = pair.writer.target.node_name;
  reader_node = pair.reader.target.node_name;
}

unfoldable pub pair_state : Pair → PairState
pair_state pair = record {
  transport = pair.verdict.transport;
  confidence = pair.verdict.confidence;
  measured = pair.measured.transports;
  locator = pair.verdict.locator;
  measured_locators = map (λ ml. ml.locator) pair.measured.locators;
  warnings = pair.verdict.warnings;
}

abbrev pub States : Type 0
States = List (PairKey × PairState)

-- `out[pair_key(t, p)] = pair_state(p)`, over the pairs of a topic, and over the topics.
unfoldable pub add_states : TopicSummary → List Pair → States → States
add_states t [] out = out
add_states t (p ∷ ps) out = add_states t ps (insert (pair_key t p) (pair_state p) out)

unfoldable pub states_of : List TopicSummary → States → States
states_of [] out = out
states_of (t ∷ ts) out = states_of ts (add_states t t.pairs out)

unfoldable pub pair_states : List TopicSummary → States
pair_states topics = states_of topics []
