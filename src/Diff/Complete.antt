-- ===== src/Diff/Complete.antt =====
-- The pairs whose states differ between the two frames are listed, and no others.
use fastdds_transport_viz.Prelude.{
  Bool, true, false, ◌≡◌, ◌↔◌, inl, inr, refl, sym, ◌∙◌, List, [], ◌∷◌, Option, none, some, In,
  All-In, arith, subst, Bool-cases, eq_iff, str_eq,
}
use mathlib.Core.Option.{some-injective}
use fastdds_transport_viz.Prelude.OrderedMap.{IsDistinct}
use fastdds_transport_viz.Model.Kinds.{Confidence, transport_eq, transport_eq_iff, confidence_eq}
use fastdds_transport_viz.Model.Endpoints.{locator_eq, locator_eq_iff}
use fastdds_transport_viz.Diff.Laws.{IsChange, diff-IsChange}
use fastdds_transport_viz.Diff.Same.{state_eq_refl, find_entry-In}
use fastdds_transport_viz.Diff.States.{
  PairKey, PairState, States, state_eq, key_same, key_same_sym, key_same_trans, pair_key_key,
  list_eq,
}
use fastdds_transport_viz.Diff.Changes.{
  PairChange, Changes, find_entry, compare_entry, compare_entries, removed_keys, diff,
}

abbrev pub change_of : PairKey → PairKey → PairState → PairState → PairChange
change_of before_key key from to = record {
  key = key;
  from = from;
  to = to;
  before_key = before_key;
}

compare_entry-later :
    (k : PairKey) (s : PairState) (o : Option (PairKey × PairState)) (later : Changes)
    (change : PairChange)
    → In change later.changed
    → In change (compare_entry k s o later).changed
unfolding compare_entry
compare_entry-later k s none later change m = m
compare_entry-later k s (some (j, old)) later change m = ground (arith, m)

compare_entry-differs :
    (j k : PairKey) (old s : PairState) (later : Changes)
    → state_eq old s ≡ false
    → In (change_of j k old s) (compare_entry k s (some (j, old)) later).changed
unfolding compare_entry
compare_entry-differs j k old s later h = rw h (inl refl)

compare_entries-lists :
    (previous current : States) (rest : Changes) (j k : PairKey) (old s : PairState)
    → In (k, s) current
    → find_entry k previous ≡ some (j, old)
    → state_eq old s ≡ false
    → In (change_of j k old s) (compare_entries previous current rest).changed
unfolding compare_entries
compare_entries-lists previous [] rest j k old s m f h = elim m [ ]
compare_entries-lists previous ((i, t) ∷ current) rest j k old s (inl e) f h =
    let later = compare_entries previous current rest in
    subst
      (λ (entry : PairKey × PairState).
        In (change_of j k old s)
          (compare_entry entry.0 entry.1 (find_entry entry.0 previous) later).changed)
      e (rw f (compare_entry-differs j k old s later h))
compare_entries-lists previous ((i, t) ∷ current) rest j k old s (inr m) f h =
    compare_entry-later i t (find_entry i previous) (compare_entries previous current rest) _
      (compare_entries-lists previous current rest j k old s m f h)

diff-finds :
    (previous current : States) (j k : PairKey) (old s : PairState)
    → In (k, s) current
    → find_entry k previous ≡ some (j, old)
    → state_eq old s ≡ false
    → In (change_of j k old s) (diff previous current).changed
unfolding diff
diff-finds previous current j k old s =
    compare_entries-lists previous current
      (record { added = []; removed = removed_keys previous current; changed = [] }) j k old s

-- Two keys of the same topic and endpoints, whatever the names of their nodes.
abbrev pub SamePair : PairKey → PairKey → Type 0
SamePair j k =
    (j.topic ≡ k.topic) × (j.writer_guid ≡ k.writer_guid) × (j.reader_guid ≡ k.reader_guid)

key_same_iff : (j k : PairKey) → (key_same j k ≡ true) ↔ SamePair j k
key_same_iff j k = ground (
  arith,
  eq_iff j.topic k.topic,
  eq_iff j.writer_guid k.writer_guid,
  eq_iff j.reader_guid k.reader_guid,
)

list_eq_sound {ℓ} :
    {A : Type ℓ} (eq : A → A → Bool)
    → ((x y : A) → eq x y ≡ true → x ≡ y)
    → (xs ys : List A) → list_eq eq xs ys ≡ true
    → xs ≡ ys
list_eq_sound eq h [] [] e = refl
list_eq_sound eq h [] (y ∷ ys) e = absurd (ground arith)
list_eq_sound eq h (x ∷ xs) [] e = absurd (ground arith)
list_eq_sound eq h (x ∷ xs) (y ∷ ys) e = ground (arith, h x y, list_eq_sound eq h xs ys)

confidence_eq_sound : (a b : Confidence) → confidence_eq a b ≡ true → a ≡ b
confidence_eq_sound a b h = ground arith

state_eq_sound : (a b : PairState) → state_eq a b ≡ true → a ≡ b
unfolding state_eq
state_eq_sound a b h = ground (
  arith,
  (transport_eq_iff a.transport b.transport).0,
  confidence_eq_sound a.confidence b.confidence,
  list_eq_sound transport_eq (λ x y. (transport_eq_iff x y).0) a.measured b.measured,
  (locator_eq_iff a.locator b.locator).0,
  list_eq_sound locator_eq (λ x y. (locator_eq_iff x y).0) a.measured_locators b.measured_locators,
  list_eq_sound str_eq (λ x y. (eq_iff x y).0) a.warnings b.warnings,
)

state_eq_iff : (a b : PairState) → (state_eq a b ≡ false) ↔ (¬ (a ≡ b))
state_eq_iff a b = (
  λ h e. absurd (cc (h, subst (λ c. state_eq a c ≡ true) e (state_eq_refl a))),
  λ n. elim (Bool-cases (state_eq a b)) [ inl e ↦ absurd (n (state_eq_sound a b e)) | inr e ↦ e ],
)

find_entry_sound :
    (k j : PairKey) (s : PairState) (m : States)
    → find_entry k m ≡ some (j, s)
    → In (j, s) m × (key_same j k ≡ true)
unfolding find_entry
find_entry_sound k j s [] h = absurd (ground arith)
find_entry_sound k j s ((i, t) ∷ m) h = elim (Bool-cases (key_same i k)) [
  | inl e ↦
      let same = some-injective (i, t) (j, s) (rw e at h) in
      (inl (sym same), subst (λ (x : PairKey × PairState). key_same x.0 k ≡ true) same e)
  | inr e ↦ let (m', f) = find_entry_sound k j s m (rw e at h) in (inr m', f)
]

find_entry-same :
    (j k : PairKey) (m : States) → key_same j k ≡ true → find_entry j m ≡ find_entry k m
unfolding find_entry
find_entry-same j k [] h = refl
find_entry-same j k ((i, t) ∷ m) h =
    ground (
      arith,
      find_entry-same j k m h,
      key_same_trans i j k,
      key_same_trans i k j,
      key_same_sym j k h,
    )

-- A change is listed, with two states and the keys that the frames hold, exactly if the frames have
-- the same pair with these states under these keys, and the states are not equal in every part; the
-- previous frame has each pair once.
pub diff-lists :
    (previous current : States)
    → IsDistinct previous
    → (j k : PairKey) (old s : PairState)
    → In (change_of j k old s) (diff previous current).changed
      ↔ (In (k, s) current × In (j, old) previous × SamePair j k × (¬ (old ≡ s)))
diff-lists previous current d j k old s = (
  λ m.
      let c =
        All-In (IsChange previous current) (diff previous current).changed
          (diff-IsChange previous current) (change_of j k old s) m in
      let (i, e) = find_entry_sound k j old previous c.before in
      (c.after, i, (key_same_iff j k).0 e, (state_eq_iff old s).0 c.differs),
  λ (m, i, same, n).
      diff-finds previous current j k old s m
        (sym (find_entry-same j k previous ((key_same_iff j k).1 same))
          ∙ find_entry-In j old previous d i)
        ((state_eq_iff old s).1 n),
)
