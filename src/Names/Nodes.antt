-- ===== src/Names/Nodes.antt =====
-- ros_names.cpp: the names of nodes, and `NodeNameTable`. The table is a map from participants to
-- maps from endpoint gids to names; both keys are byte arrays, ordered byte by byte.
pub mod Lookup
use fastdds_transport_viz.Prelude.{
  ℕ, ◌+◌, String, Bool, true, false, ◌||◌, ◌&&◌, List, [], ◌∷◌, ◌++◌, Option, none, some, str_eq,
  if◌then◌else◌, ◌==◌, ltb, map, length, not, ◌≡◌, sym, arith,
}
use fastdds_transport_viz.Prelude.Text.{text_append, str_is_empty}
use fastdds_transport_viz.Prelude.OrderedMap.{Key, lookup, insert}
use fastdds_transport_viz.Model.Endpoints.{bytes_eq, bytes_eq_sound, bytes_eq_refl, bytes_eq_sym}

abbrev unknown_node_name : String
unknown_node_name = "_NODE_NAMESPACE_UNKNOWN_/_NODE_NAME_UNKNOWN_"

unfoldable normalize_node_name : String → String
normalize_node_name name = if str_eq name unknown_node_name then "" else name

unfoldable pub fully_qualified_node_name : String → String → String
fully_qualified_node_name ns name =
    if str_is_empty ns || str_eq ns "/"
    then text_append "/" name
    else text_append ns (text_append "/" name)

unfoldable merge_node_name : String → String → String
merge_node_name graph_name discovery_name =
    let name = normalize_node_name graph_name in
    if str_is_empty name then normalize_node_name discovery_name else name

-- `operator<` of std::array.
abbrev pub bytes_lt : List ℕ → List ℕ → Bool
bytes_lt [] [] = false
bytes_lt [] (b ∷ bs) = true
bytes_lt (a ∷ as') [] = false
bytes_lt (a ∷ as') (b ∷ bs) = ltb a b || (a == b && bytes_lt as' bs)

pub bytes_same_sym : (a b : List ℕ) → bytes_eq a b ≡ true → bytes_eq b a ≡ true
bytes_same_sym a b h = ground (arith, bytes_eq_sym a b)

pub bytes_same_trans :
    (a b c : List ℕ) → bytes_eq a b ≡ true → bytes_eq b c ≡ true → bytes_eq a c ≡ true
bytes_same_trans a b c h k = rw (bytes_eq_sound a b h) k

instance abbrev pub bytes_key : Key (List ℕ)
bytes_key = record {
  same = bytes_eq;
  before = bytes_lt;
  same_refl = bytes_eq_refl;
  same_sym = bytes_same_sym;
  same_trans = bytes_same_trans;
}

pub record NodeEntities : Type 0 where
  pub node_namespace : String
  pub node_name : String
  pub reader_gids : List (List ℕ)
  pub writer_gids : List (List ℕ)

abbrev pub Entries : Type 0
Entries = List (List ℕ × String)

-- `by_participant_`
abbrev pub NodeNameTable : Type 0
NodeNameTable = List (List ℕ × Entries)

-- `for (const auto & gid : *gids) {entries[gid] = name;}`
pub add_gids : String → List (List ℕ) → Entries → Entries
add_gids name [] entries = entries
add_gids name (gid ∷ gids) entries = add_gids name gids (insert gid name entries)

pub add_nodes : List NodeEntities → Entries → Entries
add_nodes [] entries = entries
add_nodes (node ∷ nodes) entries =
    let name = fully_qualified_node_name node.node_namespace node.node_name in
    add_nodes nodes (add_gids name (node.reader_gids ++ node.writer_gids) entries)

-- A sample replaces the entries of its participant.
pub update : List ℕ → List NodeEntities → NodeNameTable → NodeNameTable
update participant nodes table = insert participant (add_nodes nodes []) table

abbrev first_name : Option String → String → String
first_name none rest = rest
first_name (some name) rest = name

-- The first participant in the map's order that has the gid, or "".
unfoldable find_name : List ℕ → NodeNameTable → String
find_name gid [] = ""
find_name gid ((participant, entries) ∷ table) =
    first_name (lookup gid entries) (find_name gid table)

unfoldable announced_by_participant : NodeNameTable → List (List ℕ × List (List ℕ))
announced_by_participant = map (λ kv. (kv.0, map (λ entry. entry.0) kv.1))

unfoldable table_size : NodeNameTable → ℕ
table_size [] = 0
table_size ((participant, entries) ∷ table) = length entries + table_size table
