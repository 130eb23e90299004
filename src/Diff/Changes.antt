-- ===== src/Diff/Changes.antt =====
-- decision.cpp, `diff`: what was added, removed and changed between two frames.
use fastdds_transport_viz.Prelude.{List, [], ◌∷◌, Option, none, some, if◌then◌else◌}
use fastdds_transport_viz.Prelude.OrderedMap.{lookup}
use fastdds_transport_viz.Diff.States.{PairKey, PairState, States, state_eq, pair_key_key}

pub record PairChange : Type 0 where
  pub key : PairKey
  pub from : PairState
  pub to : PairState
  pub before_key : PairKey

pub record Changes : Type 0 where
  pub added : List PairKey
  pub removed : List PairKey
  pub changed : List PairChange

-- `previous.find(key)` gives the entry with its own key.
unfoldable pub find_entry : PairKey → States → Option (PairKey × PairState)
find_entry k [] = none
find_entry k ((j, s) ∷ m) = if pair_key_key.same j k then some (j, s) else find_entry k m

abbrev add_key : PairKey → Changes → Changes
add_key k c = record c { added = k ∷ c.added }

abbrev add_change : PairChange → Changes → Changes
add_change change c = record c { changed = change ∷ c.changed }

-- One round over an entry of the current frame, with what the later rounds give.
unfoldable pub compare_entry :
    PairKey → PairState → Option (PairKey × PairState) → Changes → Changes
compare_entry k s none later = add_key k later
compare_entry k s (some (j, old)) later =
    if state_eq old s
    then later
    else add_change (record { key = k; from = old; to = s; before_key = j }) later

unfoldable pub removed_keys : States → States → List PairKey
removed_keys [] current = []
removed_keys ((k, s) ∷ previous) current = elim (lookup k current) [
  | none ↦ k ∷ removed_keys previous current
  | some _ ↦ removed_keys previous current
]

unfoldable pub compare_entries : States → States → Changes → Changes
compare_entries previous [] rest = rest
compare_entries previous ((k, s) ∷ current) rest =
    compare_entry k s (find_entry k previous) (compare_entries previous current rest)

unfoldable pub diff : States → States → Changes
diff previous current =
    compare_entries previous current
      (record { added = []; removed = removed_keys previous current; changed = [] })
