-- ===== src/Diff/Same.antt =====
-- A frame compared with itself.
use fastdds_transport_viz.Prelude.{
  Bool, true, false, ◌≡◌, inl, inr, refl, ◌∙◌, ap, subst, List, [], ◌∷◌, some, arith, Bool-cases,
  In, str_eq,
}
use fastdds_transport_viz.Prelude.OrderedMap.{lookup, has_key, IsDistinct, insert-IsDistinct}
use fastdds_transport_viz.Prelude.Keys.{str_eq_refl}
use fastdds_transport_viz.Model.Kinds.{Transport, transport_eq, transport_eq_iff}
use fastdds_transport_viz.Model.Endpoints.{Locator, locator_eq, locator_eq_iff}
use fastdds_transport_viz.Model.Pairs.{Pair, TopicSummary}
use fastdds_transport_viz.Diff.States.{
  PairKey, PairState, States, state_eq, pair_key_key, list_eq, add_states, states_of, pair_states,
  pair_key, pair_state, key_same, key_same_sym, key_same_refl,
}
use fastdds_transport_viz.Diff.Changes.{
  Changes, find_entry, compare_entry, compare_entries, removed_keys, diff,
}
use fastdds_transport_viz.Diff.Laws.{no_changes}

list_eq_refl :
    {A : Type 0} (eq : A → A → Bool)
    → ((a : A) → eq a a ≡ true)
    → (xs : List A) → list_eq eq xs xs ≡ true
list_eq_refl eq h [] = refl
list_eq_refl eq h (x ∷ xs) = rw (h x) (list_eq_refl eq h xs)

transport_eq_refl : (t : Transport) → transport_eq t t ≡ true
transport_eq_refl t = (transport_eq_iff t t).1 refl

locator_eq_refl : (l : Locator) → locator_eq l l ≡ true
locator_eq_refl l = (locator_eq_iff l l).1 refl

pub state_eq_refl : (s : PairState) → state_eq s s ≡ true
unfolding state_eq
state_eq_refl s = ground (
  arith,
  transport_eq_refl s.transport,
  list_eq_refl transport_eq transport_eq_refl s.measured,
  locator_eq_refl s.locator,
  list_eq_refl locator_eq locator_eq_refl s.measured_locators,
  list_eq_refl str_eq str_eq_refl s.warnings,
)

absent_key :
    (j k : PairKey) (s : PairState) (m : States)
    → has_key j m ≡ false
    → In (k, s) m
    → key_same j k ≡ false
unfolding has_key
absent_key j k s [] h e = elim e [ ]
absent_key j k s ((i, w) ∷ m) h (inl e) =
    let same : k ≡ i = ap (λ (p : PairKey × PairState). p.0) e in
    elim (Bool-cases (key_same j k)) [
      | inl y ↦ absurd (ground (arith, key_same_sym j k y, rw (← same) at h))
      | inr n ↦ n
    ]
absent_key j k s ((i, w) ∷ m) h (inr e) = absent_key j k s m (ground arith) e

pub find_entry-In :
    (k : PairKey) (s : PairState) (m : States)
    → IsDistinct m
    → In (k, s) m
    → find_entry k m ≡ some (k, s)
unfolding find_entry
find_entry-In k s [] d e = elim e [ ]
find_entry-In k s ((j, w) ∷ m) (n, d) (inl e) =
    subst (λ (x : PairKey × PairState). find_entry k (x ∷ m) ≡ some (k, s)) e (rw (key_same_refl k))
find_entry-In k s ((j, w) ∷ m) (n, d) (inr e) =
    rw (absent_key j k s m n e) (find_entry-In k s m d e)

lookup-In :
    (k : PairKey) (s : PairState) (m : States) → IsDistinct m → In (k, s) m → lookup k m ≡ some s
unfolding lookup
lookup-In k s [] d e = elim e [ ]
lookup-In k s ((j, w) ∷ m) (n, d) (inl e) =
    subst (λ (x : PairKey × PairState). lookup k (x ∷ m) ≡ some s) e (rw (key_same_refl k))
lookup-In k s ((j, w) ∷ m) (n, d) (inr e) = rw (absent_key j k s m n e) (lookup-In k s m d e)

-- The entries of a part of a map are all found in the map.
compare_part :
    (m part : States) (rest : Changes)
    → IsDistinct m
    → ((k : PairKey) (s : PairState) → In (k, s) part → In (k, s) m)
    → compare_entries m part rest ≡ rest
unfolding compare_entries compare_entry
compare_part m [] rest d h = refl
compare_part m ((k, s) ∷ part) rest d h =
    rw (find_entry-In k s m d (h k s (inl refl)), state_eq_refl s)
      (compare_part m part rest d (λ k s e. h k s (inr e)))

remove_part :
    (m part : States)
    → IsDistinct m
    → ((k : PairKey) (s : PairState) → In (k, s) part → In (k, s) m)
    → removed_keys part m ≡ []
unfolding removed_keys
remove_part m [] d h = refl
remove_part m ((k, s) ∷ part) d h =
    ground
      (arith, lookup-In k s m d (h k s (inl refl)), remove_part m part d (λ k s e. h k s (inr e)))

add_states-IsDistinct :
    (t : TopicSummary) (ps : List Pair) (out : States)
    → IsDistinct out
    → IsDistinct (add_states t ps out)
unfolding add_states
add_states-IsDistinct t [] out d = d
add_states-IsDistinct t (p ∷ ps) out d =
    add_states-IsDistinct t ps _ (insert-IsDistinct (pair_key t p) (pair_state p) out d)

states_of-IsDistinct :
    (ts : List TopicSummary) (out : States) → IsDistinct out → IsDistinct (states_of ts out)
unfolding states_of
states_of-IsDistinct [] out d = d
states_of-IsDistinct (t ∷ ts) out d =
    states_of-IsDistinct ts _ (add_states-IsDistinct t t.pairs out d)

-- A frame that shows the same topics as the one before has no changes.
pub diff_self :
    (topics : List TopicSummary) → diff (pair_states topics) (pair_states topics) ≡ no_changes
unfolding diff pair_states
diff_self topics =
    let m = states_of topics [] in
    let d = states_of-IsDistinct topics [] tt in
    compare_part m m _ d (λ k s e. e)
    ∙ ap (λ (ks : List PairKey). record { added = []; removed = ks; changed = [] })
        (remove_part m m d (λ k s e. e))
