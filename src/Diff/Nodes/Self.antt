-- ===== src/Diff/Nodes/Self.antt =====
-- A frame compared with itself, in both modes.
use fastdds_transport_viz.Prelude.{List, [], ◌∷◌, In, ◌≡◌, refl, ◌∙◌, ap, inl, inr}
use fastdds_transport_viz.Prelude.OrderedMap.{IsDistinct, insert-IsDistinct}
use fastdds_transport_viz.Prelude.OrderedMap.Distinct.{lookup-In}
use fastdds_transport_viz.Model.Kinds.{KeyMode}
use fastdds_transport_viz.Model.Pairs.{Pair, TopicSummary}
use fastdds_transport_viz.Diff.States.{PairKey, pair_key, pair_state, pair_key_key}
use fastdds_transport_viz.Diff.Changes.{Changes}
use fastdds_transport_viz.Diff.Laws.{no_changes}
use fastdds_transport_viz.Diff.Same.{diff_self, state_eq_refl}
use fastdds_transport_viz.Diff.Nodes.{
  ByNode, Entry, NodeStates, by_node_of, identity_key, add_entries, add_topics, node_keyed, strip,
  compare_nodes, removed_nodes, diff_snapshots,
}

compare_nodes_part :
    (m part : NodeStates) (rest : Changes)
    → IsDistinct m
    → ((k : PairKey) (e : Entry) → In (k, e) part → In (k, e) m)
    → compare_nodes m part rest ≡ rest
unfolding compare_nodes
compare_nodes_part m [] rest d h = refl
compare_nodes_part m ((k, (j, s)) ∷ part) rest d h =
    rw (lookup-In k (j, s) m d (h k (j, s) (inl refl)), state_eq_refl (strip s))
      (compare_nodes_part m part rest d (λ k e i. h k e (inr i)))

removed_nodes_part :
    (m part : NodeStates)
    → IsDistinct m
    → ((k : PairKey) (e : Entry) → In (k, e) part → In (k, e) m)
    → removed_nodes part m ≡ []
unfolding removed_nodes
removed_nodes_part m [] d h = refl
removed_nodes_part m ((k, e) ∷ part) d h =
    rw (lookup-In k e m d (h k e (inl refl))) (removed_nodes_part m part d (λ k e i. h k e (inr i)))

add_entries-IsDistinct :
    (by_node : ByNode) (t : TopicSummary) (ps : List Pair) (out : NodeStates)
    → IsDistinct out
    → IsDistinct (add_entries by_node t ps out)
unfolding add_entries
add_entries-IsDistinct by_node t [] out d = d
add_entries-IsDistinct by_node t (p ∷ ps) out d =
    add_entries-IsDistinct by_node t ps _
      (insert-IsDistinct (identity_key by_node t p) (pair_key t p, pair_state p) out d)

add_topics-IsDistinct :
    (ts : List TopicSummary) (out : NodeStates) → IsDistinct out → IsDistinct (add_topics ts out)
unfolding add_topics
add_topics-IsDistinct [] out d = d
add_topics-IsDistinct (t ∷ ts) out d =
    add_topics-IsDistinct ts _ (add_entries-IsDistinct (by_node_of t) t t.pairs out d)

-- A frame that shows the same topics as the one before has no changes, whether pairs are known by
-- their GUIDs or by their nodes.
pub diff_snapshots_self :
    (topics : List TopicSummary) (mode : KeyMode) → diff_snapshots topics topics mode ≡ no_changes
unfolding diff_snapshots node_keyed
diff_snapshots_self topics KeyMode.guid = diff_self topics
diff_snapshots_self topics KeyMode.node =
    let m = add_topics topics [] in
    let d = add_topics-IsDistinct topics [] tt in
    compare_nodes_part m m _ d (λ k e i. i)
    ∙ ap (λ (ks : List PairKey). record { added = []; removed = ks; changed = [] })
        (removed_nodes_part m m d (λ k e i. i))
