-- ===== src/Diff/Laws.antt =====
-- What a comparison of two frames lists.
use fastdds_transport_viz.Prelude.{
  false, ◌≡◌, ◌↔◌, inl, inr, refl, sym, ◌∙◌, List, [], ◌∷◌, ◌++◌, Option, none, some, append-nil,
  arith, Bool-cases, All, In,
}
use fastdds_transport_viz.Prelude.OrderedMap.{lookup}
use fastdds_transport_viz.Diff.States.{PairKey, PairState, States, state_eq, pair_key_key}
use fastdds_transport_viz.Diff.Changes.{
  PairChange, Changes, find_entry, compare_entry, compare_entries, removed_keys, diff,
}

abbrev pub no_changes : Changes
no_changes = record { added = []; removed = []; changed = [] }

-- The keys of the entries of one map that the other lacks.
abbrev pub missing_keys : States → States → List PairKey
missing_keys from [] = []
missing_keys from ((k, s) ∷ m) = elim (lookup k from) [
  | none ↦ k ∷ missing_keys from m
  | some _ ↦ missing_keys from m
]

find_entry-lookup : (k : PairKey) (m : States) → (find_entry k m ≡ none) ↔ (lookup k m ≡ none)
unfolding find_entry lookup
find_entry-lookup k [] = ((λ h. refl), (λ h. refl))
find_entry-lookup k ((j, s) ∷ m) = ground (arith, find_entry-lookup k m)

added-compare_entries :
    (previous current : States) (rest : Changes)
    → (compare_entries previous current rest).added ≡ missing_keys previous current ++ rest.added
unfolding compare_entries compare_entry
added-compare_entries previous [] rest = refl
added-compare_entries previous ((k, s) ∷ current) rest =
    ground (arith, added-compare_entries previous current rest, find_entry-lookup k previous)

removed-compare_entries :
    (previous current : States) (rest : Changes)
    → (compare_entries previous current rest).removed ≡ rest.removed
unfolding compare_entries compare_entry
removed-compare_entries previous [] rest = refl
removed-compare_entries previous ((k, s) ∷ current) rest =
    ground (arith, removed-compare_entries previous current rest)

removed_keys-missing :
    (previous current : States) → removed_keys previous current ≡ missing_keys current previous
unfolding removed_keys
removed_keys-missing [] current = refl
removed_keys-missing ((k, s) ∷ previous) current =
    ground (arith, removed_keys-missing previous current)

-- Exchanging the two frames exchanges what was added and what was removed: the added keys are
-- those of the current frame that the previous one lacks, in their order, and the removed keys
-- those of the previous frame that the current one lacks.
pub diff_flip :
    (previous current : States)
    → ((diff previous current).added ≡ missing_keys previous current)
      × ((diff previous current).removed ≡ missing_keys current previous)
      × ((diff previous current).added ≡ (diff current previous).removed)
unfolding diff
diff_flip previous current =
    let added = added-compare_entries previous current _ ∙ append-nil _ in
    let removed = λ (p c : States).
      removed-compare_entries p c (record { added = []; removed = removed_keys p c; changed = [] })
      ∙ removed_keys-missing p c in
    (added, removed previous current, added ∙ sym (removed current previous))

-- A change as the maps show it: both have the key, with different states.
pub record IsChange (previous current : States) (change : PairChange) : Type 0 where
  pub after : In (change.key, change.to) current
  pub before : find_entry change.key previous ≡ some (change.before_key, change.from)
  pub differs : state_eq change.from change.to ≡ false

All-IsChange-tail :
    (previous current : States) (k : PairKey) (s : PairState) (cs : List PairChange)
    → All (IsChange previous current) cs
    → All (IsChange previous ((k, s) ∷ current)) cs
All-IsChange-tail previous current k s [] h = tt
All-IsChange-tail previous current k s (c ∷ cs) (h, hs) = (
  record { after = inr h.after; before = h.before; differs = h.differs },
  All-IsChange-tail previous current k s cs hs,
)

changed-compare_entries :
    (previous current : States) (rest : Changes)
    → rest.changed ≡ []
    → All (IsChange previous current) (compare_entries previous current rest).changed
unfolding compare_entries compare_entry
changed-compare_entries previous [] rest e = rw e tt
changed-compare_entries previous ((k, s) ∷ current) rest e =
    let later = compare_entries previous current rest in
    let ih =
      All-IsChange-tail previous current k s later.changed
        (changed-compare_entries previous current rest e) in
    cases (find_entry k previous) refl ih
  where
    cases :
        (o : Option (PairKey × PairState))
        → find_entry k previous ≡ o
        → All (IsChange previous ((k, s) ∷ current)) (compare_entries previous current rest).changed
        → All
            (IsChange previous ((k, s) ∷ current))
            (compare_entry k s o (compare_entries previous current rest)).changed
    cases none f h = h
    cases (some (j, old)) f h = elim (Bool-cases (state_eq old s)) [
      | inl same ↦ rw same h
      | inr other ↦ rw other (record { after = inl refl; before = f; differs = other }, h)
    ]

pub diff-IsChange :
    (previous current : States) → All (IsChange previous current) (diff previous current).changed
unfolding diff
diff-IsChange previous current = changed-compare_entries previous current _ refl
