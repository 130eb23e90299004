-- ===== src/Summaries/Classes/Members.antt =====
-- The topics that are classified as actions are members of these actions.
use fastdds_transport_viz.Prelude.{
  ℕ, zero, suc, String, Bool, true, false, ◌||◌, ◌&&◌, not, List, [], ◌∷◌, ◌++◌, some, map, all,
  str_eq, eq_iff, append_assoc, ◌≡◌, refl, sym, ap, ◌∙◌, arith, Bool-cases, Option-cases, In, inl,
  inr, all-All,
}
use fastdds_transport_viz.Prelude.OrderedMap.{lookup, insert, replace, place, lookup-insert}
use fastdds_transport_viz.Prelude.OrderedMap.Updates.{update_at}
use fastdds_transport_viz.Prelude.Keys.{text_key, str_eq_refl}
use fastdds_transport_viz.Model.Kinds.{TopicKind}
use fastdds_transport_viz.Model.Pairs.{TopicSummary}
use fastdds_transport_viz.Names.Topics.{RosEntityKind, demangle_topic}
use fastdds_transport_viz.Names.Actions.{ActionMember, parse_action_member}
use fastdds_transport_viz.Summaries.Classes.{
  Candidates, new_candidates, class_by_name, name_class, or_nothing, or_true, add_candidate,
  add_candidates, write_at, action_class, write_all, is_action, write_actions, classify_topics,
}

-- A test of each entry of a map from texts.
module _ {V : Type 0} (p : String × V → Bool) where
  moved : (j k : String) (v : V) → str_eq j k ≡ true → p (j, v) ≡ p (k, v)
  moved j k v h = ap (λ i. p (i, v)) ((eq_iff j k).0 h)

  all-replace :
      (k : String) (v : V) (m : List (String × V))
      → all p m ≡ true
      → p (k, v) ≡ true
      → all p (replace k v m) ≡ true
  unfolding replace
  all-replace k v [] h e = refl
  all-replace k v ((j, w) ∷ m) h e = ground (arith, all-replace k v m, moved j k v)

  all-place :
      (k : String) (v : V) (m : List (String × V))
      → all p m ≡ true
      → p (k, v) ≡ true
      → all p (place k v m) ≡ true
  unfolding place
  all-place k v [] h e = ground arith
  all-place k v ((j, w) ∷ m) h e = ground (arith, all-place k v m)

  all-insert :
      (k : String) (v : V) (m : List (String × V))
      → all p m ≡ true
      → p (k, v) ≡ true
      → all p (insert k v m) ≡ true
  unfolding insert
  all-insert k v m h e = ground (arith, all-replace k v m, all-place k v m)

  all-lookup :
      (k : String) (v : V) (m : List (String × V))
      → all p m ≡ true
      → lookup k m ≡ some v
      → p (k, v) ≡ true
  unfolding lookup
  all-lookup k v [] h e = absurd (ground arith)
  all-lookup k v ((j, w) ∷ m) h e = ground (arith, all-lookup k v m, moved j k w)

-- The members that the topics' names give.
abbrev parsed_of : List TopicSummary → List ActionMember
parsed_of topics = map (λ t. parse_action_member t.dds_topic t.dds_type) topics

-- The member at a place passes a test.
abbrev test_at : (ActionMember → Bool) → ℕ → List ActionMember → Bool
test_at p i [] = false
test_at p zero (m ∷ ms) = p m
test_at p (suc i) (m ∷ ms) = test_at p i ms

abbrev is_member_of : String → ActionMember → Bool
is_member_of action m = m.matched && str_eq m.action action && m.type_ok

abbrev is_kind_action : TopicKind → Bool
is_kind_action TopicKind.action = true
is_kind_action _ = false

abbrev is_good : TopicSummary → Bool
is_good t =
    not (is_kind_action t.kind) || is_member_of t.group (parse_action_member t.dds_topic t.dds_type)

parsed_of-write_at :
    (action : String) (i : ℕ) (ts : List TopicSummary)
    → parsed_of (write_at i (action_class action) ts) ≡ parsed_of ts
unfolding write_at
parsed_of-write_at action i [] = refl
parsed_of-write_at action zero (t ∷ ts) = refl
parsed_of-write_at action (suc i) (t ∷ ts) =
    ap (λ ms. parse_action_member t.dds_topic t.dds_type ∷ ms) (parsed_of-write_at action i ts)

write_at-good :
    (action : String) (i : ℕ) (ts : List TopicSummary)
    → all is_good ts ≡ true
    → test_at (is_member_of action) i (parsed_of ts) ≡ true
    → all is_good (write_at i (action_class action) ts) ≡ true
unfolding write_at
write_at-good action i [] h e = refl
write_at-good action zero (t ∷ ts) h e = ground arith
write_at-good action (suc i) (t ∷ ts) h e = ground (arith, write_at-good action i ts)

-- Every place of a list has a member of the action.
abbrev are_members : List ActionMember → String → List ℕ → Bool
are_members ms action is = all (λ i. test_at (is_member_of action) i ms) is

write_all-good :
    (ms : List ActionMember) (action : String) (is : List ℕ) (ts : List TopicSummary)
    → parsed_of ts ≡ ms
    → all is_good ts ≡ true
    → are_members ms action is ≡ true
    → (parsed_of (write_all action is ts) ≡ ms) × (all is_good (write_all action is ts) ≡ true)
unfolding write_all
write_all-good ms action [] ts e h k = (e, h)
write_all-good ms action (i ∷ is) ts e h k =
    let here : test_at (is_member_of action) i ms ≡ true = ground arith in
    write_all-good ms action is (write_at i (action_class action) ts)
      (parsed_of-write_at action i ts ∙ e) (write_at-good action i ts h (rw e here)) (ground arith)

-- An entry of the candidates, given the flags.
abbrev entry_ok : List ActionMember → List (String × Bool) → String × List ℕ → Bool
entry_ok ms flags e = not (or_true (lookup e.0 flags)) || are_members ms e.0 e.1

write_actions-good :
    (ms : List ActionMember) (c : Candidates) (cs : List (String × List ℕ)) (ts : List TopicSummary)
    → parsed_of ts ≡ ms
    → all is_good ts ≡ true
    → all (entry_ok ms c.every_member_type_ok) cs ≡ true
    → all is_good (write_actions c cs ts) ≡ true
unfolding write_actions
write_actions-good ms c [] ts e h k = h
write_actions-good ms c ((action, is) ∷ cs) ts e h k = elim (Bool-cases (is_action c action)) [
  | inl accepted ↦
      let (f, g) = write_all-good ms action is ts e h (ground arith) in
      rw accepted (write_actions-good ms c cs (write_all action is ts) f g (ground arith))
  | inr no_action ↦ rw no_action (write_actions-good ms c cs ts e h (ground arith))
]

class_good :
    (kind : RosEntityKind) (name : String) (t : TopicSummary)
    → is_good (class_by_name kind name t) ≡ true
class_good RosEntityKind.not_ros name t = refl
class_good RosEntityKind.topic name t = refl
class_good RosEntityKind.service_request name t = refl
class_good RosEntityKind.service_reply name t = refl

-- Neither name of a topic changes.
class_names :
    (kind : RosEntityKind) (name : String) (t : TopicSummary)
    → parsed_of (class_by_name kind name t ∷ []) ≡ parsed_of (t ∷ [])
class_names RosEntityKind.not_ros name t = refl
class_names RosEntityKind.topic name t = refl
class_names RosEntityKind.service_request name t = refl
class_names RosEntityKind.service_reply name t = refl

name_class-good : (ts : List TopicSummary) → all is_good (map name_class ts) ≡ true
name_class-good [] = refl
name_class-good (t ∷ ts) =
    let ros = demangle_topic t.dds_topic in rw (class_good ros.kind ros.name t) (name_class-good ts)

parsed_of-name_class : (ts : List TopicSummary) → parsed_of (map name_class ts) ≡ parsed_of ts
parsed_of-name_class [] = refl
parsed_of-name_class (t ∷ ts) =
    let ros = demangle_topic t.dds_topic in
    ap (λ ms. ms ++ parsed_of (map name_class ts)) (class_names ros.kind ros.name t)
    ∙ ap (λ ms. parse_action_member t.dds_topic t.dds_type ∷ ms) (parsed_of-name_class ts)

all_weaken :
    {A : Type 0} (p q : A → Bool) (xs : List A)
    → ((x : A) → p x ≡ true → q x ≡ true)
    → all p xs ≡ true
    → all q xs ≡ true
all_weaken p q [] f h = refl
all_weaken p q (x ∷ xs) f h = ground (arith, f x, all_weaken p q xs f)

all_snoc :
    {A : Type 0} (p : A → Bool) (xs : List A) (x : A) → all p (xs ++ x ∷ []) ≡ (all p xs && p x)
all_snoc p [] x = ground arith
all_snoc p (y ∷ ys) x = ground (arith, all_snoc p ys x)

place_of : List ActionMember → ℕ
place_of [] = zero
place_of (m ∷ ms) = suc (place_of ms)

test_at_end :
    (p : ActionMember → Bool) (before : List ActionMember) (m : ActionMember)
    (after : List ActionMember)
    → test_at p (place_of before) (before ++ m ∷ after) ≡ p m
unfolding place_of
test_at_end p [] m after = refl
test_at_end p (n ∷ before) m after = test_at_end p before m after

-- Flags only fall.
flag_falls :
    (action : String) (ok : Bool) (flags : List (String × Bool)) (other : String)
    → or_true (lookup other (update_at action (λ o. or_true o && ok) flags)) ≡ true
    → or_true (lookup other flags) ≡ true
flag_falls action ok flags other h = elim (Bool-cases (str_eq action other)) [
  | inl e ↦
      let same : action ≡ other = (eq_iff action other).0 e in
      let raised =
        rw (lookup-insert action other (or_true (lookup action flags) && ok) flags, e) at h in
      rw (← same) (ground arith)
  | inr e ↦ rw (lookup-insert action other (or_true (lookup action flags) && ok) flags, e) at h
]

-- The step of the first loop at a member keeps the entries right.
module _ (ms : List ActionMember) (i : ℕ) (m : ActionMember) (c : Candidates) where
  abbrev new_flags : List (String × Bool)
  new_flags = update_at m.action (λ o. or_true o && m.type_ok) c.every_member_type_ok

  old_entries :
      all (entry_ok ms c.every_member_type_ok) c.candidates ≡ true
      → all (entry_ok ms new_flags) c.candidates ≡ true
  old_entries h =
      all_weaken (entry_ok ms c.every_member_type_ok) (entry_ok ms new_flags) c.candidates
        (λ x e. ground (arith, flag_falls m.action m.type_ok c.every_member_type_ok x.0)) h

  old_members :
      all (entry_ok ms new_flags) c.candidates ≡ true
      → or_true (lookup m.action new_flags) ≡ true
      → are_members ms m.action (or_nothing (lookup m.action c.candidates)) ≡ true
  old_members h f = elim (Option-cases (lookup m.action c.candidates)) [
    | inl e ↦ rw e refl
    | inr (is, e) ↦
        let k = all-lookup (entry_ok ms new_flags) m.action is c.candidates h e in
        rw e (ground arith)
  ]

  type_flag : or_true (lookup m.action new_flags) ≡ true → m.type_ok ≡ true
  type_flag f =
      let raised =
        rw
          (
            lookup-insert m.action m.action
                (or_true (lookup m.action c.every_member_type_ok) && m.type_ok)
                c.every_member_type_ok,
            str_eq_refl m.action,
          )
          at f in
      ground arith

  new_entry :
      all (entry_ok ms new_flags) c.candidates ≡ true
      → m.matched ≡ true
      → test_at (is_member_of m.action) i ms ≡ is_member_of m.action m
      → entry_ok ms new_flags (m.action, or_nothing (lookup m.action c.candidates) ++ i ∷ []) ≡ true
  new_entry h matched here = elim (Bool-cases (or_true (lookup m.action new_flags))) [
    | inl f ↦
        let here_ok : test_at (is_member_of m.action) i ms ≡ true =
          here ∙ rw (matched, str_eq_refl m.action, type_flag f) refl in
        rw
          (
            f,
            all_snoc (λ x. test_at (is_member_of m.action) x ms)
                (or_nothing (lookup m.action c.candidates)) i,
            old_members h f,
            here_ok,
          )
          refl
    | inr f ↦ rw f refl
  ]

  add_candidate-ok :
      test_at (is_member_of m.action) i ms ≡ is_member_of m.action m
      → all (entry_ok ms c.every_member_type_ok) c.candidates ≡ true
      → all
          (entry_ok ms (add_candidate i m c).every_member_type_ok)
          (add_candidate i m c).candidates
        ≡ true
  add_candidate-ok here h = elim (Bool-cases m.matched) [
    | inl matched ↦ rw matched (
        all-insert (entry_ok ms new_flags) m.action
          (or_nothing (lookup m.action c.candidates) ++ i ∷ []) c.candidates (old_entries h)
          (new_entry (old_entries h) matched here))
    | inr e ↦ rw e h
  ]

place_of_snoc :
    (before : List ActionMember) (m : ActionMember)
    → place_of (before ++ m ∷ []) ≡ suc (place_of before)
unfolding place_of
place_of_snoc [] m = refl
place_of_snoc (n ∷ before) m = ap suc (place_of_snoc before m)

entries_ok : List ActionMember → Candidates → Bool
entries_ok ms c = all (entry_ok ms c.every_member_type_ok) c.candidates

add_candidates-ok :
    (ms before : List ActionMember) (i : ℕ) (ts : List TopicSummary) (c : Candidates)
    → ms ≡ before ++ parsed_of ts
    → i ≡ place_of before
    → entries_ok ms c ≡ true
    → entries_ok ms (add_candidates i ts c) ≡ true
unfolding add_candidates entries_ok
add_candidates-ok ms before i [] c e p h = h
add_candidates-ok ms before i (t ∷ ts) c e p h =
    let m = parse_action_member t.dds_topic t.dds_type in
    add_candidates-ok ms (before ++ m ∷ []) (suc i) ts (add_candidate i m c)
      (e ∙ sym (append_assoc before (m ∷ []) (parsed_of ts)))
      (ap suc p ∙ sym (place_of_snoc before m))
      (add_candidate-ok ms i m c
        (rw (e, p) (test_at_end (is_member_of m.action) before m (parsed_of ts))) h)

classify_topics-good : (topics : List TopicSummary) → all is_good (classify_topics topics) ≡ true
unfolding classify_topics entries_ok place_of
classify_topics-good topics =
    let ms = parsed_of topics in
    let c = add_candidates 0 topics new_candidates in
    write_actions-good ms c c.candidates (map name_class topics) (parsed_of-name_class topics)
      (name_class-good topics) (add_candidates-ok ms [] 0 topics new_candidates refl refl refl)

-- A topic that is classified as an action's is a member of the action that its group names, and
-- carries the type that this member has to carry.
pub classify_topics-members :
    (topics : List TopicSummary) (t : TopicSummary)
    → In t (classify_topics topics)
    → t.kind ≡ TopicKind.action
    → ((parse_action_member t.dds_topic t.dds_type).matched ≡ true)
      × ((parse_action_member t.dds_topic t.dds_type).action ≡ t.group)
      × ((parse_action_member t.dds_topic t.dds_type).type_ok ≡ true)
classify_topics-members topics t i k =
    let m = parse_action_member t.dds_topic t.dds_type in
    let good = all-All is_good (classify_topics topics) (classify_topics-good topics) t i in
    let member : is_member_of t.group m ≡ true = rw k at good in
    (ground arith, (eq_iff m.action t.group).0 (ground arith), ground arith)
