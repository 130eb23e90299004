-- ===== src/Names/Actions/Members.antt =====
-- What `parse_action_member` recognises.
use fastdds_transport_viz.Prelude.{
  String, true, false, List, [], ◌∷◌, some, In, All, All-In, str_eq, eq_iff, ◌≡◌, ◌⊎◌, ◌↔◌, inl,
  inr, refl, ap, sym, ◌∙◌, arith, subst, Bool-cases, Option-cases,
}
use fastdds_transport_viz.Prelude.Text.{text_append, str_is_empty, strip_prefix, strip_prefix_sound}
use fastdds_transport_viz.Names.Topics.{RosEntityKind, named}
use fastdds_transport_viz.Names.Topics.Mangling.{
  Mangled, demangle_topic-Mangled, Mangled-demangle_topic,
}
use fastdds_transport_viz.Names.Actions.{
  ActionMember, new_action_member, split_first, split_last, contains, action_separator, MemberSpec,
  members, entity_kind_eq, is_spec_of, member_of, find_member, member_at, member_named,
  parse_action_member,
}
use fastdds_transport_viz.Names.Actions.Types.{both_parts, IsTyped, member_of_iff}

-- A topic of the rmw whose ROS name is an action, which has a name, the separator and the suffix of
-- a member.
abbrev pub IsMemberTopic : (dds_topic action : String) → MemberSpec → Type 0
IsMemberTopic dds_topic action m =
    (rest : String) × Mangled m.kind rest dds_topic
    × (text_append "/" rest ≡ text_append action (text_append action_separator m.suffix))
    × (str_is_empty action ≡ false)

split_last-append :
    (separator a t b : String)
    → split_last separator t ≡ some ("", b)
    → split_last separator (text_append a t) ≡ some (a, b)
unfolding split_last
split_last-append separator String.[] t b h = h
split_last-append separator (String.◌∷◌ c a) t b h = rw (split_last-append separator a t b h) refl

split_last_sound :
    (separator s a b : String)
    → split_last separator s ≡ some (a, b)
    → s ≡ text_append a (text_append separator b)
unfolding split_last
split_last_sound separator String.[] a b h = elim (Option-cases (strip_prefix separator "")) [
  | inl e ↦ absurd (ground (arith, rw e at h))
  | inr (rest, e) ↦
      let (f, g) = both_parts "" rest a b (rw e at h) in
      rw (← f, ← g) (strip_prefix_sound separator "" rest e)
]
split_last_sound separator (String.◌∷◌ c s) a b h = elim (Option-cases (split_last separator s)) [
  | inr ((before, after), e) ↦
      let (f, g) = both_parts (String.◌∷◌ c before) after a b (rw e at h) in
      rw (← f, ← g) (ap (String.◌∷◌ c) (split_last_sound separator s before after e))
  | inl e ↦ elim (Option-cases (strip_prefix separator (String.◌∷◌ c s))) [
    | inl g ↦ absurd (ground (arith, rw (e, g) at h))
    | inr (rest, g) ↦
        let (f, k) = both_parts "" rest a b (rw (e, g) at h) in
        rw (← f, ← k) (strip_prefix_sound separator (String.◌∷◌ c s) rest g)
  ]
]

-- What the search needs of a specification: its suffix is found behind the separator, and the list
-- finds the specification itself.
abbrev IsFound : MemberSpec → Type 0
IsFound m =
    (split_last action_separator (text_append action_separator m.suffix) ≡ some ("", m.suffix))
    × (contains "/" m.suffix ≡ false)
    × (entity_kind_eq m.kind RosEntityKind.not_ros ≡ false)
    × ((dds_type action : String)
        → find_member dds_type action m.kind m.suffix members
          ≡ member_of dds_type action m.suffix m)

All-IsFound : All IsFound members
unfolding split_last find_member split_first
All-IsFound = (
  (refl, refl, refl, λ t a. refl),
  (
    (refl, refl, refl, λ t a. refl),
    (
      (refl, refl, refl, λ t a. refl),
      (
        (refl, refl, refl, λ t a. refl),
        (
          (refl, refl, refl, λ t a. refl),
          (
            (refl, refl, refl, λ t a. refl),
            ((refl, refl, refl, λ t a. refl), ((refl, refl, refl, λ t a. refl), tt)),
          ),
        ),
      ),
    ),
  ),
)

find_member_sound :
    (dds_type action : String) (kind : RosEntityKind) (suffix : String) (ms : List MemberSpec)
    → (find_member dds_type action kind suffix ms ≡ new_action_member)
      ⊎ ((m : MemberSpec) × In m ms
          × (is_spec_of kind suffix m ≡ true)
          × (find_member dds_type action kind suffix ms ≡ member_of dds_type action suffix m))
unfolding find_member
find_member_sound dds_type action kind suffix [] = inl refl
find_member_sound dds_type action kind suffix (m ∷ ms) =
    elim (Bool-cases (is_spec_of kind suffix m)) [
      | inl e ↦ inr (m, inl refl, e, rw e refl)
      | inr e ↦ elim (find_member_sound dds_type action kind suffix ms) [
        | inl h ↦ inl (rw e h)
        | inr (n, i, g, h) ↦ inr (n, inr i, g, rw e h)
      ]
    ]

same_kind : (k l : RosEntityKind) → entity_kind_eq k l ≡ true → k ≡ l
same_kind k l h = ground arith

spec_fields :
    (kind : RosEntityKind) (suffix : String) (m : MemberSpec)
    → is_spec_of kind suffix m ≡ true
    → (m.kind ≡ kind) × (suffix ≡ m.suffix)
spec_fields kind suffix m h =
    let parts : (entity_kind_eq m.kind kind ≡ true) × (str_eq suffix m.suffix ≡ true) =
      (ground arith, ground arith) in
    (same_kind m.kind kind parts.0, (eq_iff suffix m.suffix).0 parts.1)

named_complete :
    (dds_type action rest : String) (m : MemberSpec)
    → IsFound m
    → text_append "/" rest ≡ text_append action (text_append action_separator m.suffix)
    → str_is_empty action ≡ false
    → member_named dds_type (named m.kind rest) ≡ member_of dds_type action m.suffix m
named_complete dds_type action rest m (behind, plain, ros, found) e filled =
    rw (ros, e, split_last-append action_separator action _ m.suffix behind, filled, plain)
      (found dds_type action)

-- A result is the member that the code makes of an action that the topic belongs to.
abbrev IsMemberOf : (dds_topic dds_type : String) → ActionMember → Type 0
IsMemberOf dds_topic dds_type found =
    (action : String) × (m : MemberSpec) × In m members
    × IsMemberTopic dds_topic action m
    × (found ≡ member_of dds_type action m.suffix m)

-- What is recognised of a topic, given what is recognised of its ROS name.
abbrev Recognises : (dds_topic dds_type : String) → ActionMember → Type 0
Recognises dds_topic dds_type found =
    (found ≡ new_action_member) ⊎ IsMemberOf dds_topic dds_type found

at_sound :
    (dds_topic dds_type rest action suffix : String) (kind : RosEntityKind)
    → Mangled kind rest dds_topic
    → split_last action_separator (text_append "/" rest) ≡ some (action, suffix)
    → Recognises dds_topic dds_type (member_at dds_type kind (some (action, suffix)))
at_sound dds_topic dds_type rest action suffix kind mangled e =
    elim (Bool-cases (str_is_empty action)) [
      | inl f ↦ inl (rw f refl)
      | inr filled ↦ elim (Bool-cases (contains "/" suffix)) [
        | inl f ↦ inl (rw (filled, f) refl)
        | inr plain ↦ elim (find_member_sound dds_type action kind suffix members) [
          | inl h ↦ inl (rw (filled, plain) h)
          | inr (m, i, g, h) ↦
              let (k, same) = spec_fields kind suffix m g in
              inr (
                action,
                m,
                i,
                (
                  rest,
                  subst (λ kind. Mangled kind rest dds_topic) (sym k) mangled,
                  split_last_sound action_separator (text_append "/" rest) action suffix e
                      ∙ ap (λ s. text_append action (text_append action_separator s)) same,
                  filled,
                ),
                rw (filled, plain) (h ∙ ap (λ s. member_of dds_type action s m) same),
              )
        ]
      ]
    ]

named_sound :
    (dds_topic dds_type rest : String) (kind : RosEntityKind)
    → Mangled kind rest dds_topic
    → Recognises dds_topic dds_type (member_named dds_type (named kind rest))
named_sound dds_topic dds_type rest kind mangled =
    elim (Bool-cases (entity_kind_eq kind RosEntityKind.not_ros)) [
      | inl e ↦ inl (rw e refl)
      | inr e ↦ elim (Option-cases (split_last action_separator (text_append "/" rest))) [
        | inl f ↦ inl (rw (e, f) refl)
        | inr ((action, suffix), f) ↦
            rw (e, f) (at_sound dds_topic dds_type rest action suffix kind mangled f)
      ]
    ]

complete :
    (dds_topic dds_type action : String) (m : MemberSpec)
    → In m members
    → IsMemberTopic dds_topic action m
    → parse_action_member dds_topic dds_type ≡ member_of dds_type action m.suffix m
unfolding parse_action_member
complete dds_topic dds_type action m i (rest, mangled, e, filled) =
    rw (demangle_topic-Mangled m.kind rest dds_topic mangled)
      (named_complete dds_type action rest m (All-In IsFound members All-IsFound m i) e filled)

recognised :
    (dds_topic dds_type : String)
    → Recognises dds_topic dds_type (parse_action_member dds_topic dds_type)
unfolding parse_action_member
recognised dds_topic dds_type = elim (Mangled-demangle_topic dds_topic) [
  | inl e ↦ inl (rw e refl)
  | inr (kind, rest, e, mangled) ↦ rw e (named_sound dds_topic dds_type rest kind mangled)
]

-- A result is the member of an action that the topic belongs to, and its type is judged as the member
-- demands.
abbrev pub IsMember : (dds_topic dds_type : String) → ActionMember → Type 0
IsMember dds_topic dds_type found =
    (m : MemberSpec) × In m members
    × IsMemberTopic dds_topic found.action m
    × (found.matched ≡ true)
    × (found.suffix ≡ m.suffix)
    × IsTyped dds_type m found

IsMemberOf-IsMember :
    (dds_topic dds_type : String) (found : ActionMember)
    → IsMemberOf dds_topic dds_type found ↔ IsMember dds_topic dds_type found
IsMemberOf-IsMember dds_topic dds_type found = (
  λ (action, m, i, t, g).
      let (matched, a, suffix, typed) = (member_of_iff dds_type action m found).0 g in
      (m, i, subst (λ b. IsMemberTopic dds_topic b m) (sym a) t, matched, suffix, typed),
  λ (m, i, t, matched, suffix, typed). (
    found.action,
    m,
    i,
    t,
    (member_of_iff dds_type found.action m found).1 (matched, refl, suffix, typed),
  ),
)

-- A topic is recognised as an action's member, with a result, exactly if it is the mangled name of a
-- kind of member of an action with a name, and the result says so: the action, the suffix, and what
-- the DDS type says, which names the action type or names none, or is compared with
-- the one type of the member.
pub parse_action_member_lem :
    (dds_topic dds_type : String) (found : ActionMember)
    → ((parse_action_member dds_topic dds_type ≡ found) × (found.matched ≡ true))
      ↔ IsMember dds_topic dds_type found
parse_action_member_lem dds_topic dds_type found = (
  λ (e, matched). elim (recognised dds_topic dds_type) [
    | inl none_found ↦ absurd cc
    | inr (action, m, i, t, g) ↦
        (IsMemberOf-IsMember dds_topic dds_type found).0 (action, m, i, t, sym e ∙ g)
  ],
  λ member.
      let (action, m, i, t, g) = (IsMemberOf-IsMember dds_topic dds_type found).1 member in
      (complete dds_topic dds_type action m i t ∙ sym g, ap ActionMember.matched g),
)
