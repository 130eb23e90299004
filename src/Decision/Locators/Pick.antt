-- ===== src/Decision/Locators/Pick.antt =====
-- `pick_network_locator` takes the first locator that the writer can reach.
use fastdds_transport_viz.Prelude.{
  Bool, true, false, ◌≡◌, ◌↔◌, ◌⊎◌, inl, inr, refl, List, [], ◌∷◌, ◌++◌, none, some, In, All, ◌∙◌,
  sym, any-In, In-any, any-append, arith, Bool-cases, Option-cases, ap,
}
use fastdds_transport_viz.Model.Kinds.{LocatorKind, kind_eq, kind_eq_iff}
use fastdds_transport_viz.Model.Endpoints.{Locator, Endpoint}
use fastdds_transport_viz.Decision.Locators.{
  has_kind, usable, pick_from, pick_network_locator, is_ip,
}

abbrev pub announced_locators : Endpoint → List Locator
announced_locators e = e.unicast ++ e.multicast

-- The endpoint announces a locator of the kind.
abbrev pub Announces : Endpoint → LocatorKind → Type 0
Announces e kind = (l : Locator) × In l (announced_locators e) × (l.kind ≡ kind)

abbrev IsNetwork : LocatorKind → Type 0
IsNetwork kind =
    (kind ≡ LocatorKind.udpv4)
    ⊎ ((kind ≡ LocatorKind.udpv6) ⊎ ((kind ≡ LocatorKind.tcpv4) ⊎ (kind ≡ LocatorKind.tcpv6)))

-- A network locator whose kind the writer announces too.
abbrev pub Reaches : Endpoint → Locator → Type 0
Reaches writer l = IsNetwork l.kind × Announces writer l.kind

-- `l` is the first element of the list that the writer reaches.
abbrev pub FirstReached : Endpoint → Locator → List Locator → Type 0
FirstReached writer l ls =
    (earlier later : List Locator) × (ls ≡ earlier ++ l ∷ later)
    × All (λ k. ¬ Reaches writer k) earlier
    × Reaches writer l

pub has_kind_iff : (e : Endpoint) (kind : LocatorKind) → (has_kind e kind ≡ true) ↔ Announces e kind
unfolding has_kind
has_kind_iff e kind = (
  (λ h.
      let test = λ (l : Locator). kind_eq l.kind kind in
      let (l, m, p) =
        any-In test (announced_locators e) (any-append test e.unicast e.multicast ∙ h) in
      (l, m, (kind_eq_iff l.kind kind).0 p)),
  (λ (l, m, p).
      let test = λ (l : Locator). kind_eq l.kind kind in
      sym (any-append test e.unicast e.multicast)
      ∙ In-any test (announced_locators e) l m ((kind_eq_iff l.kind kind).1 p)),
)

is_ip_iff : (kind : LocatorKind) → (is_ip kind ≡ true) ↔ IsNetwork kind
is_ip_iff kind = ground arith

usable_iff : (w : Endpoint) (l : Locator) → (usable w l ≡ true) ↔ Reaches w l
unfolding usable
usable_iff w l = (
  (λ h. ((is_ip_iff l.kind).0 (ground arith), (has_kind_iff w l.kind).0 (ground arith))),
  (λ (n, a). ground (arith, (is_ip_iff l.kind).1 n, (has_kind_iff w l.kind).1 a)),
)

not_usable : (w : Endpoint) (l : Locator) → usable w l ≡ false → ¬ Reaches w l
not_usable w l h r = cc ((usable_iff w l).1 r)

pick_from-none :
    (w : Endpoint) (mc : Bool) (ls : List Locator)
    → pick_from w mc ls ≡ none
    → All (λ k. ¬ Reaches w k) ls
unfolding pick_from
pick_from-none w mc [] h = tt
pick_from-none w mc (l ∷ ls) h = elim (Bool-cases (usable w l)) [
  | inl u ↦ absurd (ground arith)
  | inr u ↦ (not_usable w l u, pick_from-none w mc ls (ground arith))
]

pick_from-some :
    (w : Endpoint) (mc : Bool) (ls : List Locator) (l : Locator) (flag : Bool)
    → pick_from w mc ls ≡ some (l, flag)
    → (flag ≡ mc) × FirstReached w l ls
unfolding pick_from
pick_from-some w mc [] l flag h = cc
pick_from-some w mc (k ∷ ls) l flag h = elim (Bool-cases (usable w k)) [
  | inl u ↦
      let e : k ≡ l = ground arith in
      (ground arith, ([], ls, ap (λ x. x ∷ ls) e, tt, (usable_iff w l).0 (rw (← e) u)))
  | inr u ↦
      let (f, (earlier, later, e, n, r)) = pick_from-some w mc ls l flag (ground arith) in
      (f, (k ∷ earlier, later, ap (λ xs. k ∷ xs) e, (not_usable w k u, n), r))
]

-- When the search finds a locator, that is the first one that the writer reaches: of the
-- reader's unicast locators, or, where it reaches none of those, of its multicast locators,
-- and the flag says which. When it finds none, the writer reaches no locator of the reader.
pub pick_network_locator_lem :
    (writer reader : Endpoint)
    → ((pick_network_locator writer reader ≡ none)
        × All (λ k. ¬ Reaches writer k) reader.unicast
        × All (λ k. ¬ Reaches writer k) reader.multicast)
      ⊎ (((l : Locator) × (pick_network_locator writer reader ≡ some (l, false))
            × FirstReached writer l reader.unicast)
          ⊎ ((l : Locator) × (pick_network_locator writer reader ≡ some (l, true))
              × All (λ k. ¬ Reaches writer k) reader.unicast
              × FirstReached writer l reader.multicast))
unfolding pick_network_locator
pick_network_locator_lem writer reader =
    elim (Option-cases (pick_from writer false reader.unicast)) [
      | inl e ↦ elim (Option-cases (pick_from writer true reader.multicast)) [
        | inl f ↦
            inl (ground arith, pick_from-none writer false _ e, pick_from-none writer true _ f)
        | inr ((l, flag), f) ↦
            let (g, first) = pick_from-some writer true _ l flag f in
            inr (inr (l, ground arith, pick_from-none writer false reader.unicast e, first))
      ]
      | inr ((l, flag), e) ↦
          let (g, first) = pick_from-some writer false _ l flag e in
          inr (inl (l, ground arith, first))
    ]

usable-false : (w : Endpoint) (l : Locator) → (¬ Reaches w l) → usable w l ≡ false
usable-false w l n = elim (Bool-cases (usable w l)) [
  | inl u ↦ absurd (n ((usable_iff w l).0 u))
  | inr u ↦ u
]

pick_from-unreached :
    (w : Endpoint) (mc : Bool) (ls : List Locator)
    → All (λ k. ¬ Reaches w k) ls
    → pick_from w mc ls ≡ none
unfolding pick_from
pick_from-unreached w mc [] h = refl
pick_from-unreached w mc (l ∷ ls) (n, h) = rw (usable-false w l n) (pick_from-unreached w mc ls h)

pick_from-first :
    (w : Endpoint) (mc : Bool) (earlier later : List Locator) (l : Locator)
    → All (λ k. ¬ Reaches w k) earlier
    → Reaches w l
    → pick_from w mc (earlier ++ l ∷ later) ≡ some (l, mc)
unfolding pick_from
pick_from-first w mc [] later l h r = rw ((usable_iff w l).1 r)
pick_from-first w mc (k ∷ ks) later l (n, h) r =
    rw (usable-false w k n) (pick_from-first w mc ks later l h r)

-- The search finds the locator that comes first.
pub pick_network_locator-first :
    (w r : Endpoint) (l : Locator)
    → FirstReached w l r.unicast
      ⊎ (All (λ k. ¬ Reaches w k) r.unicast × FirstReached w l r.multicast)
    → (flag : Bool) × (pick_network_locator w r ≡ some (l, flag))
unfolding pick_network_locator
pick_network_locator-first w r l (inl (earlier, later, e, n, reached)) = (
  false,
  ground (arith, ap (pick_from w false) e, pick_from-first w false earlier later l n reached),
)
pick_network_locator-first w r l (inr (none_before, (earlier, later, e, n, reached))) = (
  true,
  ground (
    arith,
    pick_from-unreached w false r.unicast none_before,
    ap (pick_from w true) e,
    pick_from-first w true earlier later l n reached,
  ),
)

pub pick_network_locator-unreached :
    (w r : Endpoint)
    → All (λ k. ¬ Reaches w k) r.unicast
    → All (λ k. ¬ Reaches w k) r.multicast
    → pick_network_locator w r ≡ none
unfolding pick_network_locator
pick_network_locator-unreached w r h k =
    ground
      (arith, pick_from-unreached w false r.unicast h, pick_from-unreached w true r.multicast k)
