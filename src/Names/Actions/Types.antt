-- ===== src/Names/Actions/Types.antt =====
-- The action type that the DDS type of a member names.
use fastdds_transport_viz.Prelude.{
  String, Bool, true, false, ◌||◌, Option, none, some, ◌≡◌, ◌⊎◌, ◌↔◌, eq_iff, ◌==◌, inl, inr, refl,
  ap, sym, ◌∙◌, arith, Bool-cases, Option-cases, subst,
}
use Prim.Native.Char.{Char, code}
use fastdds_transport_viz.Prelude.Text.{
  text_append, str_is_empty, strip_prefix, strip_suffix, strip_prefix_sound, strip_suffix_sound,
  strip_suffix-append, is_some,
}
use fastdds_transport_viz.Names.Actions.{
  extend, split_first, contains, type_around, action_type_from, ActionMember, MemberSpec, member_of,
}

abbrev pub has_colon : String → Bool
has_colon String.[] = false
has_colon (String.◌∷◌ c s) = code c == 58 || has_colon s

-- The DDS type of a member of the action type `<pkg>/action/<name>`, whose name ends with the tail.
abbrev pub NamesType : (dds_type tail action_type : String) → Type 0
NamesType dds_type tail action_type =
    (pkg : String) × (name : String) × (dds_type
      ≡ text_append pkg (text_append "::action::dds_::" (text_append name tail)))
    × (str_is_empty pkg ≡ false)
    × (has_colon pkg ≡ false)
    × (str_is_empty name ≡ false)
    × (action_type ≡ text_append pkg (text_append "/action/" name))

flip : (c : Char) → (code c == 58) ≡ (58 == code c)
flip c = ground arith

is_some-extend :
    (o : Option (String × String)) (put : String → String) → is_some (extend o put) ≡ is_some o
is_some-extend none put = refl
is_some-extend (some (a, b)) put = refl

contains-colon : (s : String) → contains ":" s ≡ has_colon s
unfolding split_first
contains-colon String.[] = refl
contains-colon (String.◌∷◌ c s) = elim (Bool-cases (58 == code c)) [
  | inl e ↦ rw (flip c, e) refl
  | inr e ↦ rw (flip c, e) (is_some-extend (split_first ":" s) (String.◌∷◌ c) ∙ contains-colon s)
]

-- The marker starts with a colon, so it is found behind the package.
split_first-append :
    (pkg rest : String)
    → has_colon pkg ≡ false
    → split_first "::action::dds_::" (text_append pkg (text_append "::action::dds_::" rest))
      ≡ some (pkg, rest)
unfolding split_first
split_first-append String.[] rest h = refl
split_first-append (String.◌∷◌ c pkg) rest h =
    let other : (58 == code c) ≡ false = ground (arith, flip c) in
    rw (other, split_first-append pkg rest (ground arith)) refl

pub both_parts :
    (a b a2 b2 : String)
    → ◌≡◌ {A = Option (String × String)} (some (a, b)) (some (a2, b2))
    → (a ≡ a2) × (b ≡ b2)
both_parts a b a2 b2 h = (cc, cc)

append-filled : (s t : String) → str_is_empty s ≡ false → str_is_empty (text_append s t) ≡ false
append-filled String.[] t h = absurd (ground arith)
append-filled (String.◌∷◌ c s) t h = refl

split_first_sound :
    (separator s a b : String)
    → split_first separator s ≡ some (a, b)
    → s ≡ text_append a (text_append separator b)
unfolding split_first
split_first_sound separator String.[] a b h = elim (Option-cases (strip_prefix separator "")) [
  | inl e ↦ absurd (ground (arith, rw e at h))
  | inr (rest, e) ↦
      let (f, g) = both_parts "" rest a b (rw e at h) in
      rw (← f, ← g) (strip_prefix_sound separator "" rest e)
]
split_first_sound separator (String.◌∷◌ c s) a b h =
    elim (Option-cases (strip_prefix separator (String.◌∷◌ c s))) [
      | inr (rest, e) ↦
          let (f, g) = both_parts "" rest a b (rw e at h) in
          rw (← f, ← g) (strip_prefix_sound separator (String.◌∷◌ c s) rest e)
      | inl e ↦ elim (Option-cases (split_first separator s)) [
        | inl g ↦ absurd (ground (arith, rw (e, g) at h))
        | inr ((before, after), g) ↦
            let (f, k) = both_parts (String.◌∷◌ c before) after a b (rw (e, g) at h) in
            rw (← f, ← k) (ap (String.◌∷◌ c) (split_first_sound separator s before after g))
      ]
    ]

action_type_from_complete :
    (dds_type tail t : String) → NamesType dds_type tail t → action_type_from dds_type tail ≡ t
unfolding action_type_from
action_type_from_complete dds_type tail t (pkg, name, e, filled, plain, named, same) =
    rw
      (
        e,
        split_first-append pkg (text_append name tail) plain,
        filled,
        contains-colon pkg,
        plain,
        strip_suffix-append tail name,
        named,
      )
      (sym same)

around_sound :
    (dds_type tail pkg rest : String)
    → split_first "::action::dds_::" dds_type ≡ some (pkg, rest)
    → (type_around tail (some (pkg, rest)) ≡ "")
      ⊎ NamesType dds_type tail (type_around tail (some (pkg, rest)))
around_sound dds_type tail pkg rest e = elim (Bool-cases (str_is_empty pkg)) [
  | inl f ↦ inl (rw f refl)
  | inr filled ↦ elim (Bool-cases (contains ":" pkg)) [
    | inl f ↦ inl (rw (filled, f) refl)
    | inr plain ↦ elim (Option-cases (strip_suffix tail rest)) [
      | inl f ↦ inl (rw (filled, plain, f) refl)
      | inr (name, f) ↦ elim (Bool-cases (str_is_empty name)) [
        | inl g ↦ inl (rw (filled, plain, f, g) refl)
        | inr named ↦ inr (
            rw (filled, plain, f, named)
              (
                pkg,
                name,
                split_first_sound "::action::dds_::" dds_type pkg rest e
                    ∙ ap (λ r. text_append pkg (text_append "::action::dds_::" r))
                        (strip_suffix_sound tail rest name f),
                filled,
                sym (contains-colon pkg) ∙ plain,
                named,
                refl,
              ))
      ]
    ]
  ]
]

action_type_from_sound :
    (dds_type tail : String)
    → (action_type_from dds_type tail ≡ "")
      ⊎ NamesType dds_type tail (action_type_from dds_type tail)
unfolding action_type_from
action_type_from_sound dds_type tail =
    elim (Option-cases (split_first "::action::dds_::" dds_type)) [
      | inl e ↦ inl (rw e refl)
      | inr ((pkg, rest), e) ↦ rw e (around_sound dds_type tail pkg rest e)
    ]

NamesType-filled : (dds_type tail t : String) → NamesType dds_type tail t → str_is_empty t ≡ false
NamesType-filled dds_type tail t (pkg, name, e, filled, plain, named, same) =
    rw same (append-filled pkg (text_append "/action/" name) filled)

-- What the DDS type says of a member: it names the action, or names none where it should, or is
-- compared with the one type that the member of every action has.
abbrev pub IsTyped : (dds_type : String) → MemberSpec → ActionMember → Type 0
IsTyped dds_type m found =
    ((m.names_action ≡ true) × (found.type_ok ≡ true) × NamesType dds_type m.type found.action_type)
    ⊎ (((m.names_action ≡ true)
          × (found.type_ok ≡ false)
          × (found.action_type ≡ "")
          × (¬ ((t : String) × NamesType dds_type m.type t)))
        ⊎ ((m.names_action ≡ false)
            × (found.action_type ≡ "")
            × ((found.type_ok ≡ true) ↔ (dds_type ≡ m.type))))

member_of-IsTyped :
    (dds_type action : String) (m : MemberSpec)
    → IsTyped dds_type m (member_of dds_type action m.suffix m)
member_of-IsTyped dds_type action m = elim (Bool-cases m.names_action) [
  | inr e ↦ rw e (inr (inr (refl, refl, eq_iff dds_type m.type)))
  | inl e ↦ rw e (elim (action_type_from_sound dds_type m.type) [
    | inr n ↦
        inl
          (refl, rw (NamesType-filled dds_type m.type (action_type_from dds_type m.type) n) refl, n)
    | inl none_named ↦ inr (
        inl (
          refl,
          rw none_named refl,
          none_named,
          λ (t, n). absurd (
              cc (
                action_type_from_complete dds_type m.type t n,
                none_named,
                NamesType-filled dds_type m.type t n,
              )),
        ))
  ])
]

same_fields :
    (x y : ActionMember)
    → x.matched ≡ y.matched
    → x.action ≡ y.action
    → x.suffix ≡ y.suffix
    → x.type_ok ≡ y.type_ok
    → x.action_type ≡ y.action_type
    → x ≡ y
same_fields x y a b c d e = cc

IsTyped-fields :
    (dds_type action : String) (m : MemberSpec) (found : ActionMember)
    → IsTyped dds_type m found
    → (found.type_ok ≡ (member_of dds_type action m.suffix m).type_ok)
      × (found.action_type ≡ (member_of dds_type action m.suffix m).action_type)
IsTyped-fields dds_type action m found (inl (named, ok, n)) =
    let same = action_type_from_complete dds_type m.type found.action_type n in
    let filled = NamesType-filled dds_type m.type found.action_type n in
    rw (named, same, filled) (ok, refl)
IsTyped-fields dds_type action m found (inr (inl (named, wrong, nothing, n))) =
    elim (action_type_from_sound dds_type m.type) [
      | inl e ↦ rw (named, e) (wrong, nothing)
      | inr t ↦ absurd (n (action_type_from dds_type m.type, t))
    ]
IsTyped-fields dds_type action m found (inr (inr (unnamed, nothing, compared))) =
    rw unnamed (ground (arith, eq_iff dds_type m.type), nothing)

-- A member's fields, apart from `member_of`.
pub member_of_iff :
    (dds_type action : String) (m : MemberSpec) (found : ActionMember)
    → (found ≡ member_of dds_type action m.suffix m) ↔ (
        (found.matched ≡ true)
        × (found.action ≡ action)
        × (found.suffix ≡ m.suffix)
        × IsTyped dds_type m found)
member_of_iff dds_type action m found = (
  λ e. (
    ap ActionMember.matched e,
    ap ActionMember.action e,
    ap ActionMember.suffix e,
    subst (IsTyped dds_type m) (sym e) (member_of-IsTyped dds_type action m),
  ),
  λ (matched, a, suffix, typed).
      let (ok, named) = IsTyped-fields dds_type action m found typed in
      same_fields found (member_of dds_type action m.suffix m) matched a suffix ok named,
)
