-- ===== src/Diff/Nodes.antt =====
-- decision.cpp, `node_keyed`, `same_ignoring_ports` and `diff_snapshots`: frames compared by GUID or
-- by the names of the nodes. A restarted node keeps its name while its GUIDs and ports change.
pub mod Self
use fastdds_transport_viz.Prelude.{
  ℕ, suc, String, Bool, true, false, List, [], ◌∷◌, ◌++◌, Option, none, some, map, str_eq,
  if◌then◌else◌,
}
use fastdds_transport_viz.Prelude.Text.{text_append, str_is_empty, str_lt}
use fastdds_transport_viz.Prelude.OrderedMap.{lookup, insert}
use fastdds_transport_viz.Prelude.OrderedMap.Updates.{update_at}
use fastdds_transport_viz.Prelude.Keys.{text_key}
use fastdds_transport_viz.Model.Kinds.{KeyMode}
use fastdds_transport_viz.Model.Endpoints.{Locator, Endpoint, EndpointPtr}
use fastdds_transport_viz.Model.Pairs.{Pair, TopicSummary}
use fastdds_transport_viz.SharedMemory.Files.{decimal}
use fastdds_transport_viz.Diff.States.{
  PairKey, PairState, state_eq, pair_key, pair_state, pair_states, pair_key_key,
}
use fastdds_transport_viz.Diff.Changes.{PairChange, Changes, diff}

abbrev pub ByNode : Type 0
ByNode = List (String × List String)

abbrev pub guids_of : Option (List String) → List String
guids_of none = []
guids_of (some guids) = guids

-- `if (!e->node_name.empty()) {by_node[e->node_name].push_back(e->guid);}`
abbrev pub add_guid : Endpoint → ByNode → ByNode
add_guid e by_node =
    if str_is_empty e.node_name
    then by_node
    else update_at e.node_name (λ o. guids_of o ++ e.guid ∷ []) by_node

pub add_guids_of : List EndpointPtr → ByNode → ByNode
add_guids_of [] by_node = by_node
add_guids_of (p ∷ ps) by_node = add_guids_of ps (add_guid p.target by_node)

-- `std::sort` of texts.
pub insert_text : String → List String → List String
insert_text t [] = t ∷ []
insert_text t (u ∷ us) = if str_lt u t then u ∷ insert_text t us else t ∷ u ∷ us

pub sort_texts : List String → List String
sort_texts [] = []
sort_texts (t ∷ ts) = insert_text t (sort_texts ts)

pub by_node_of : TopicSummary → ByNode
by_node_of t =
    map (λ kv. (kv.0, sort_texts kv.1)) (add_guids_of t.readers (add_guids_of t.writers []))

-- `std::find(...) - begin`: the number of texts if there is none.
pub position : String → List String → ℕ
position guid [] = 0
position guid (g ∷ gs) = if str_eq g guid then 0 else suc (position guid gs)

pub identity : ByNode → Endpoint → String
identity by_node e =
    if str_is_empty e.node_name
    then text_append "guid:" e.guid
    else text_append e.node_name
        (text_append "#" (decimal (position e.guid (guids_of (lookup e.node_name by_node)))))

abbrev pub Entry : Type 0
Entry = PairKey × PairState

abbrev pub NodeStates : Type 0
NodeStates = List (PairKey × Entry)

abbrev pub identity_key : ByNode → TopicSummary → Pair → PairKey
identity_key by_node t p = record {
  topic = t.display_topic;
  writer_guid = identity by_node p.writer.target;
  reader_guid = identity by_node p.reader.target;
  writer_node = "";
  reader_node = "";
}

pub add_entries : ByNode → TopicSummary → List Pair → NodeStates → NodeStates
add_entries by_node t [] out = out
add_entries by_node t (p ∷ ps) out =
    add_entries by_node t ps (insert (identity_key by_node t p) (pair_key t p, pair_state p) out)

pub add_topics : List TopicSummary → NodeStates → NodeStates
add_topics [] out = out
add_topics (t ∷ ts) out = add_topics ts (add_entries (by_node_of t) t t.pairs out)

pub node_keyed : List TopicSummary → NodeStates
node_keyed topics = add_topics topics []

abbrev no_port : Locator → Locator
no_port l = record l { port = 0 }

abbrev pub strip : PairState → PairState
strip s = record s {
  locator = no_port s.locator;
  measured_locators = map no_port s.measured_locators;
}

abbrev pub same_ignoring_ports : PairState → PairState → Bool
same_ignoring_ports a b = state_eq (strip a) (strip b)

-- One round over the current frame, with what the later rounds give.
abbrev pub compare_node : Entry → Option Entry → Changes → Changes
compare_node (k, s) none later = record later { added = k ∷ later.added }
compare_node (k, s) (some (j, old)) later =
    if same_ignoring_ports old s then later else record later {
      changed = record { key = k; from = old; to = s; before_key = j } ∷ later.changed;
    }

pub compare_nodes : NodeStates → NodeStates → Changes → Changes
compare_nodes previous [] rest = rest
compare_nodes previous ((ident, e) ∷ current) rest =
    compare_node e (lookup ident previous) (compare_nodes previous current rest)

abbrev pub keep_removed : PairKey → Option Entry → List PairKey → List PairKey
keep_removed k none keys = k ∷ keys
keep_removed k (some e) keys = keys

pub removed_nodes : NodeStates → NodeStates → List PairKey
removed_nodes [] current = []
removed_nodes ((ident, e) ∷ previous) current =
    keep_removed e.0 (lookup ident current) (removed_nodes previous current)

-- The `key` of the result repeats the mode.
pub diff_snapshots : List TopicSummary → List TopicSummary → KeyMode → Changes
diff_snapshots before after KeyMode.guid = diff (pair_states before) (pair_states after)
diff_snapshots before after KeyMode.node =
    let prev = node_keyed before in
    let cur = node_keyed after in
    compare_nodes prev cur (record { added = []; removed = removed_nodes prev cur; changed = [] })
