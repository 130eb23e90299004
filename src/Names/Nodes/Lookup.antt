-- ===== src/Names/Nodes/Lookup.antt =====
-- What a sample of `ros_discovery_info` makes of the table.
use fastdds_transport_viz.Prelude.{
  ℕ, String, Bool, ◌≡◌, refl, ◌∙◌, ap, List, [], ◌∷◌, ◌++◌, Option, none, some, if◌then◌else◌, any,
  arith,
}
use fastdds_transport_viz.Prelude.OrderedMap.{lookup, insert, lookup-insert}
use fastdds_transport_viz.Model.Endpoints.{bytes_eq}
use fastdds_transport_viz.Names.Nodes.{
  NodeEntities, Entries, NodeNameTable, bytes_key, add_gids, add_nodes, update,
  fully_qualified_node_name,
}

abbrev node_gids : NodeEntities → List (List ℕ)
node_gids node = node.reader_gids ++ node.writer_gids

abbrev lists_gid : List ℕ → List (List ℕ) → Bool
lists_gid gid = any (λ g. bytes_eq g gid)

abbrev full_name : NodeEntities → String
full_name node = fully_qualified_node_name node.node_namespace node.node_name

-- The name of the last node of the sample that lists the gid.
abbrev pub owner : List ℕ → List NodeEntities → Option String → Option String
owner gid [] found = found
owner gid (node ∷ nodes) found =
    owner gid nodes (if lists_gid gid (node_gids node) then some (full_name node) else found)

lookup-add_gids :
    (gid : List ℕ) (name : String) (gids : List (List ℕ)) (entries : Entries)
    → lookup gid (add_gids name gids entries)
      ≡ (if lists_gid gid gids then some name else lookup gid entries)
unfolding add_gids
lookup-add_gids gid name [] entries = refl
lookup-add_gids gid name (g ∷ gids) entries =
    lookup-add_gids gid name gids (insert g name entries)
    ∙ ground (arith, lookup-insert g gid name entries)

lookup-add_nodes :
    (gid : List ℕ) (nodes : List NodeEntities) (entries : Entries)
    → lookup gid (add_nodes nodes entries) ≡ owner gid nodes (lookup gid entries)
unfolding add_nodes
lookup-add_nodes gid [] entries = refl
lookup-add_nodes gid (node ∷ nodes) entries =
    lookup-add_nodes gid nodes (add_gids (full_name node) (node_gids node) entries)
    ∙ ap (owner gid nodes) (lookup-add_gids gid (full_name node) (node_gids node) entries)

-- The entries of one participant.
abbrev pub participant_lookup : List ℕ → List ℕ → NodeNameTable → Option (Option String)
participant_lookup participant gid table = elim (lookup participant table) [
  | none ↦ none
  | some entries ↦ some (lookup gid entries)
]

-- After a sample its participant names a gid exactly by the last node of the sample that lists
-- it, and nothing of an earlier sample is left; the other participants' entries stay.
pub lookup-update :
    (participant other : List ℕ) (nodes : List NodeEntities) (table : NodeNameTable) (gid : List ℕ)
    → participant_lookup other gid (update participant nodes table) ≡ (
        if bytes_eq participant other
        then some (owner gid nodes none)
        else participant_lookup other gid table)
unfolding update lookup
lookup-update participant other nodes table gid = ground (
  arith,
  lookup-insert participant other (add_nodes nodes []) table,
  lookup-add_nodes gid nodes [],
)
