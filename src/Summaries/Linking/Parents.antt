-- ===== src/Summaries/Linking/Parents.antt =====
-- What the linked endpoints hold.
use fastdds_transport_viz.Prelude.{
  ℕ, ◌+◌, ◌<◌, ◌≤◌, String, Bool, true, false, ◌≡◌, refl, ap, ap₂, ◌∙◌, sym, subst, List, [], ◌∷◌,
  ◌++◌, Option, none, some, keep_if, map, if◌then◌else◌, ◌==◌, In, inl, inr, arith, Bool-cases,
  append-nil, append_assoc,
}
use fastdds_transport_viz.Model.Endpoints.{Endpoint, EndpointPtr}
use fastdds_transport_viz.Summaries.Summarize.{pointers}
use fastdds_transport_viz.Summaries.Linking.{
  parent_of, with_links, clear, link_to, link_loop, link_buffer_companions,
}

-- The GUID of a parent, or "".
abbrev guid_of : Option EndpointPtr → String
guid_of none = ""
guid_of (some p) = p.target.guid

abbrev stands_at : ℕ → Option EndpointPtr → Bool
stands_at place none = false
stands_at place (some p) = p.place == place

-- The GUIDs of the endpoints whose parent stands at the place, in their order.
abbrev companions_of : List EndpointPtr → ℕ → List EndpointPtr → List String
companions_of all place cs =
    map (λ c. c.target.guid) (keep_if (λ c. stands_at place (parent_of all c)) cs)

-- An endpoint with its two links.
abbrev pub linked : List EndpointPtr → EndpointPtr → Endpoint
linked all x = (with_links x (guid_of (parent_of all x)) (companions_of all x.place all)).target

-- The loop as one element sees it.
abbrev rounds : List EndpointPtr → List EndpointPtr → EndpointPtr → EndpointPtr
rounds all [] x = x
rounds all (c ∷ cs) x = rounds all cs (link_to c (parent_of all c) x)

abbrev parent_after : List EndpointPtr → List EndpointPtr → ℕ → String → String
parent_after all [] place guid = guid
parent_after all (c ∷ cs) place guid = parent_after all cs place (
    if c.place == place
    then (elim (parent_of all c) [ none ↦ guid | some p ↦ p.target.guid ])
    else guid)

rounds-map : (all cs xs : List EndpointPtr) → link_loop all cs xs ≡ map (rounds all cs) xs
unfolding link_loop
rounds-map all [] xs = map_self xs
  where
    map_self : (xs : List EndpointPtr) → xs ≡ map (λ x. x) xs
    map_self [] = refl
    map_self (x ∷ xs) = ap (λ (ys : List EndpointPtr). x ∷ ys) (map_self xs)
rounds-map all (c ∷ cs) xs = rounds-map all cs (map (link_to c (parent_of all c)) xs) ∙ map_again xs
  where
    map_again :
        (xs : List EndpointPtr)
        → map (rounds all cs) (map (link_to c (parent_of all c)) xs) ≡ map (rounds all (c ∷ cs)) xs
    map_again [] = refl
    map_again (x ∷ xs) = ap (λ (ys : List EndpointPtr). rounds all (c ∷ cs) x ∷ ys) (map_again xs)

either_way : (b : Bool) (s : String) → (if b then s else s) ≡ s
either_way true s = refl
either_way false s = refl

append_if :
    (b : Bool) (xs : List String) (s : String)
    → (if b then xs ++ s ∷ [] else xs) ≡ xs ++ (if b then s ∷ [] else [])
append_if true xs s = refl
append_if false xs s = sym (append-nil xs)

link_to-links :
    (c x : EndpointPtr) (o : Option EndpointPtr)
    → link_to c o x
      ≡ with_links x
          (if c.place == x.place
            then (elim o [ none ↦ x.target.buffer_parent_guid | some p ↦ p.target.guid ])
            else x.target.buffer_parent_guid)
          (x.target.buffer_companion_guids
            ++ (if stands_at x.place o then c.target.guid ∷ [] else []))
unfolding link_to
link_to-links c x none = sym (
    ap₂ (with_links x) (either_way (c.place == x.place) x.target.buffer_parent_guid)
      (append-nil x.target.buffer_companion_guids))
link_to-links c x (some p) =
    ap (with_links x (if c.place == x.place then p.target.guid else x.target.buffer_parent_guid))
      (append_if (p.place == x.place) x.target.buffer_companion_guids c.target.guid)

companions_of_cons :
    (all cs : List EndpointPtr) (c : EndpointPtr) (place : ℕ) (xs : List String)
    → (xs ++ (if stands_at place (parent_of all c) then c.target.guid ∷ [] else []))
        ++ companions_of all place cs
      ≡ xs ++ companions_of all place (c ∷ cs)
companions_of_cons all cs c place xs = elim (Bool-cases (stands_at place (parent_of all c))) [
  | inl e ↦ rw e (append_assoc xs (c.target.guid ∷ []) (companions_of all place cs))
  | inr e ↦ rw e (ap (λ (ys : List String). ys ++ companions_of all place cs) (append-nil xs))
]

rounds-links :
    (all cs : List EndpointPtr) (x : EndpointPtr)
    → rounds all cs x
      ≡ with_links x
          (parent_after all cs x.place x.target.buffer_parent_guid)
          (x.target.buffer_companion_guids ++ companions_of all x.place cs)
rounds-links all [] x =
    ap (with_links x x.target.buffer_parent_guid) (sym (append-nil x.target.buffer_companion_guids))
rounds-links all (c ∷ cs) x =
    ap (rounds all cs) (link_to-links c x (parent_of all c))
    ∙ rounds-links all cs _
    ∙ ap (with_links x _) (companions_of_cons all cs c x.place x.target.buffer_companion_guids)

pointers_bounded :
    (n : ℕ) (es : List Endpoint) (x : EndpointPtr) → In x (map clear (pointers n es)) → n ≤ x.place
unfolding pointers
pointers_bounded n [] x m = elim m [ ]
pointers_bounded n (e ∷ es) x (inl h) = omega (arith, ap (λ (y : EndpointPtr). y.place) h)
pointers_bounded n (e ∷ es) x (inr m) = omega (arith, pointers_bounded (n + 1) es x m)

-- The rounds of the endpoints behind a place leave its parent alone.
parent_after_later :
    (all : List EndpointPtr) (n : ℕ) (es : List Endpoint) (place : ℕ) (guid : String)
    → place < n
    → parent_after all (map clear (pointers n es)) place guid ≡ guid
unfolding pointers
parent_after_later all n [] place guid h = refl
parent_after_later all n (e ∷ es) place guid h =
    let differ : (n == place) ≡ false = ground arith in
    rw (parent_after, differ) (parent_after_later all (n + 1) es place guid (omega arith))

guid_of_start : (o : Option EndpointPtr) → elim o [ none ↦ "" | some p ↦ p.target.guid ] ≡ guid_of o
guid_of_start none = refl
guid_of_start (some p) = refl

parent_after_own :
    (all : List EndpointPtr) (n : ℕ) (es : List Endpoint) (x : EndpointPtr)
    → In x (map clear (pointers n es))
    → parent_after all (map clear (pointers n es)) x.place "" ≡ guid_of (parent_of all x)
unfolding pointers
parent_after_own all n [] x m = elim m [ ]
parent_after_own all n (e ∷ es) x (inl h) =
    let c = clear (record { place = n; target = e }) in
    let self : (n == n) ≡ true = ground arith in
    let at_own : parent_after all (c ∷ map clear (pointers (n + 1) es)) n ""
        ≡ guid_of (parent_of all c) =
      rw (parent_after, self)
        (parent_after_later all (n + 1) es n _ (omega arith) ∙ guid_of_start (parent_of all c)) in
    subst
      (λ (y : EndpointPtr).
        parent_after all (c ∷ map clear (pointers (n + 1) es)) y.place ""
        ≡ guid_of (parent_of all y))
      (sym h) at_own
parent_after_own all n (e ∷ es) x (inr m) =
    let later = pointers_bounded (n + 1) es x m in
    let differ : (n == x.place) ≡ false = ground arith in
    rw (parent_after, differ) (parent_after_own all (n + 1) es x m)

cleared :
    (ps : List EndpointPtr) (x : EndpointPtr)
    → In x (map clear ps)
    → (x.target.buffer_parent_guid ≡ "") × (x.target.buffer_companion_guids ≡ [])
cleared [] x m = elim m [ ]
cleared (p ∷ ps) x (inl h) = (
  ap (λ (y : EndpointPtr). y.target.buffer_parent_guid) h,
  ap (λ (y : EndpointPtr). y.target.buffer_companion_guids) h,
)
cleared (p ∷ ps) x (inr m) = cleared ps x m

map_each :
    (f g : EndpointPtr → Endpoint) (xs : List EndpointPtr)
    → ((x : EndpointPtr) → In x xs → f x ≡ g x)
    → map f xs ≡ map g xs
map_each f g [] h = refl
map_each f g (x ∷ xs) h =
    ap₂ (λ (y : Endpoint) (ys : List Endpoint). y ∷ ys) (h x (inl refl))
      (map_each f g xs (λ y m. h y (inr m)))

map_target :
    (f : EndpointPtr → EndpointPtr) (xs : List EndpointPtr)
    → map (λ x. x.target) (map f xs) ≡ map (λ x. (f x).target) xs
map_target f [] = refl
map_target f (x ∷ xs) = ap (λ (ys : List Endpoint). (f x).target ∷ ys) (map_target f xs)

abbrev pub cleared_vector : List Endpoint → List EndpointPtr
cleared_vector endpoints = map clear (pointers 0 endpoints)

rounds-linked :
    (endpoints : List Endpoint) (x : EndpointPtr)
    → In x (cleared_vector endpoints)
    → (rounds (cleared_vector endpoints) (cleared_vector endpoints) x).target
      ≡ linked (cleared_vector endpoints) x
rounds-linked endpoints x m =
    let all = cleared_vector endpoints in
    let (parent, companions) = cleared (pointers 0 endpoints) x m in
    ap (λ (y : EndpointPtr). y.target) (rounds-links all all x)
    ∙ ap₂ (λ (guid : String) (guids : List String). (with_links x guid guids).target)
        (ap (parent_after all all x.place) parent ∙ parent_after_own all 0 endpoints x m)
        (ap (λ (guids : List String). guids ++ companions_of all x.place all) companions)

-- Every endpoint ends with the GUID of its own parent, or "", and with the GUIDs of exactly the
-- endpoints whose parent it is, in their order; its other fields stay.
pub link_buffer_companions-linked :
    (endpoints : List Endpoint)
    → link_buffer_companions endpoints
      ≡ map (linked (cleared_vector endpoints)) (cleared_vector endpoints)
unfolding link_buffer_companions
link_buffer_companions-linked endpoints =
    let all = cleared_vector endpoints in
    ap (map (λ x. x.target)) (rounds-map all all all)
    ∙ map_target (rounds all all) all
    ∙ map_each (λ x. (rounds all all x).target) (linked all) all (rounds-linked endpoints)
