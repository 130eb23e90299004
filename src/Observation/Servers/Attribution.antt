-- ===== src/Observation/Servers/Attribution.antt =====
-- Which server a participant gets.
use fastdds_transport_viz.Prelude.{
  ℕ, String, Bool, true, false, ◌||◌, ◌&&◌, not, ◌≡◌, ◌↔◌, ◌⊎◌, List, [], ◌∷◌, none, some, keep_if,
  map, arith, All, In, inl, inr, refl, ap, subst, eq_iff, if◌then◌else◌, Bool-cases,
}
use fastdds_transport_viz.Model.Endpoints.{bytes_eq, bytes_eq_sound, bytes_eq_refl}
use fastdds_transport_viz.Observation.Servers.{
  Participant, is_server, is_client, only, on_host, server_of, with_server,
  attribute_discovery_servers,
}

-- A client of another process than the tool's own.
abbrev pub IsForeignClient : Participant → Type 0
IsForeignClient p =
    (p.own ≡ false) × ((p.discovery_protocol ≡ "CLIENT") ⊎ (p.discovery_protocol ≡ "SUPER_CLIENT"))

-- A participant that may serve `p`: a server, in easy mode the automatic one of `p`'s host.
abbrev pub MayServe : Bool → Participant → Participant → Type 0
MayServe easy_mode p s =
    ((s.discovery_protocol ≡ "SERVER") ⊎ (s.discovery_protocol ≡ "BACKUP"))
    × ((easy_mode ≡ false) ⊎ ((s.host_id ≡ p.host_id) × (s.name ≡ "DiscoveryServerAuto")))

-- One place of a list satisfies a predicate, it holds `s`, and no other place satisfies it.
abbrev pub OnlyOne : (Participant → Type 0) → Participant → List Participant → Type 0
OnlyOne P s [] = ⊥
OnlyOne P s (x ∷ xs) = ((x ≡ s) × P x × All (λ y. ¬ P y) xs) ⊎ ((¬ P x) × OnlyOne P s xs)

-- `server` names the only participant that may serve the client `p`.
abbrev pub IsServedBy : Bool → List Participant → Participant → String → Type 0
IsServedBy easy_mode ps p server =
    IsForeignClient p
    × ((s : Participant) × OnlyOne (MayServe easy_mode p) s ps × (s.guid_prefix ≡ server))

is_client_iff : (p : Participant) → (is_client p ≡ true) ↔ IsForeignClient p
unfolding is_client
is_client_iff p =
    ground (arith, eq_iff p.discovery_protocol "CLIENT", eq_iff p.discovery_protocol "SUPER_CLIENT")

abbrev may_serve : Bool → Participant → Participant → Bool
may_serve easy_mode p s = is_server s && (not easy_mode || on_host p s)

bytes_eq_iff : (a b : List ℕ) → (bytes_eq a b ≡ true) ↔ (a ≡ b)
bytes_eq_iff a b = (bytes_eq_sound a b, λ e. subst (λ c. bytes_eq a c ≡ true) e (bytes_eq_refl a))

may_serve_iff :
    (easy_mode : Bool) (p s : Participant)
    → (may_serve easy_mode p s ≡ true) ↔ MayServe easy_mode p s
unfolding is_server
may_serve_iff easy_mode p s = ground (
  arith,
  eq_iff s.discovery_protocol "SERVER",
  eq_iff s.discovery_protocol "BACKUP",
  bytes_eq_iff s.host_id p.host_id,
  eq_iff s.name "DiscoveryServerAuto",
)

cons_iff : (x s : Participant) (ys : List Participant) → (x ∷ ys ≡ s ∷ []) ↔ ((x ≡ s) × (ys ≡ []))
cons_iff x s ys = (λ h. (cc, cc), λ (e, f). cc)

module _ (f : Participant → Bool) (P : Participant → Type 0)
    (decides : (x : Participant) → (f x ≡ true) ↔ P x) where
  keep_none_iff : (xs : List Participant) → (keep_if f xs ≡ []) ↔ All (λ y. ¬ P y) xs
  keep_none_iff [] = (λ e. tt, λ a. refl)
  keep_none_iff (x ∷ xs) = elim (Bool-cases (f x)) [
    | inl e ↦ rw e (λ h. absurd (cc h), λ (n, a). absurd (n ((decides x).0 e)))
    | inr e ↦ rw e (
      λ h. (λ px. absurd (cc (e, (decides x).1 px)), (keep_none_iff xs).0 h),
      λ (n, a). (keep_none_iff xs).1 a,
    )
  ]

  keep_one_iff :
      (s : Participant) (xs : List Participant) → (keep_if f xs ≡ s ∷ []) ↔ OnlyOne P s xs
  keep_one_iff s [] = (λ h. cc, λ o. absurd o)
  keep_one_iff s (x ∷ xs) = elim (Bool-cases (f x)) [
    | inl e ↦ rw e (
      λ h.
          let (same, rest) = (cons_iff x s (keep_if f xs)).0 h in
          inl (same, (decides x).0 e, (keep_none_iff xs).0 rest),
      λ o. elim o [
        | inl (same, px, a) ↦ (cons_iff x s (keep_if f xs)).1 (same, (keep_none_iff xs).1 a)
        | inr (n, one) ↦ absurd (n ((decides x).0 e))
      ],
    )
    | inr e ↦ rw e (
      λ h. inr (λ px. absurd (cc (e, (decides x).1 px)), (keep_one_iff s xs).0 h),
      λ o. elim o [
        | inl (same, px, a) ↦ absurd (cc (e, (decides x).1 px))
        | inr (n, one) ↦ (keep_one_iff s xs).1 one
      ],
    )
  ]

only_iff :
    (xs : List Participant) (server : String)
    → (only xs ≡ some server) ↔ ((s : Participant) × (xs ≡ s ∷ []) × (s.guid_prefix ≡ server))
only_iff [] server = (λ h. absurd (ground arith), λ (s, e, g). absurd cc)
only_iff (x ∷ []) server =
    (λ h. (x, refl, ground arith), λ (s, e, g). cc (((cons_iff x s []).0 e).0, g))
only_iff (x ∷ y ∷ xs) server = (λ h. absurd (ground arith), λ (s, e, g). absurd cc)

keep_both :
    (f g : Participant → Bool) (ps : List Participant)
    → keep_if g (keep_if f ps) ≡ keep_if (λ s. f s && (false || g s)) ps
keep_both f g [] = refl
keep_both f g (p ∷ ps) = ground (arith, keep_both f g ps)

keep_alone :
    (f : Participant → Bool) (g : Participant → Bool) (ps : List Participant)
    → keep_if f ps ≡ keep_if (λ s. f s && (true || g s)) ps
keep_alone f g [] = refl
keep_alone f g (p ∷ ps) = ground (arith, keep_alone f g ps)

server_of-only :
    (easy_mode : Bool) (ps : List Participant) (p : Participant)
    → server_of easy_mode (keep_if is_server ps) p
      ≡ (if not (is_client p) then none else only (keep_if (may_serve easy_mode p) ps))
unfolding server_of
server_of-only false ps p =
    ap (λ xs. if not (is_client p) then none else only xs) (keep_alone is_server (on_host p) ps)
server_of-only true ps p =
    ap (λ xs. if not (is_client p) then none else only xs) (keep_both is_server (on_host p) ps)

served_iff :
    (easy_mode : Bool) (ps : List Participant) (p : Participant) (server : String)
    → (server_of easy_mode (keep_if is_server ps) p ≡ some server)
      ↔ IsServedBy easy_mode ps p server
served_iff easy_mode ps p server =
    let kept = keep_if (may_serve easy_mode p) ps in
    let one =
      keep_one_iff (may_serve easy_mode p) (MayServe easy_mode p) (may_serve_iff easy_mode p) in
    rw (server_of-only easy_mode ps p) (elim (Bool-cases (is_client p)) [
      | inl e ↦ rw e (
        λ h.
            let (s, k, g) = (only_iff kept server).0 h in
            ((is_client_iff p).0 e, (s, (one s ps).0 k, g)),
        λ (c, (s, k, g)). (only_iff kept server).1 (s, (one s ps).1 k, g),
      )
      | inr e ↦ rw e (λ h. absurd (ground arith), λ (c, o). absurd (cc (e, (is_client_iff p).1 c)))
    ])

attributed :
    (easy_mode : Bool) (ps qs : List Participant) (p : Participant) (server : String)
    → In p (map (with_server easy_mode (keep_if is_server ps)) qs)
    → (p.discovery_server ≡ some server) ↔ IsServedBy easy_mode ps p server
attributed easy_mode ps [] p server m = elim m [ ]
attributed easy_mode ps (q ∷ qs) p server (inl e) = rw e (served_iff easy_mode ps q server)
attributed easy_mode ps (q ∷ qs) p server (inr m) = attributed easy_mode ps qs p server m

-- A participant gets a server exactly if it is a client of another process and one participant alone
-- may serve it, which is its server: in easy mode the only automatic server on its host, otherwise
-- the only server there is.
pub attribute_discovery_servers-IsServedBy :
    (participants : List Participant) (easy_mode : Bool) (p : Participant) (server : String)
    → In p (attribute_discovery_servers participants easy_mode)
    → (p.discovery_server ≡ some server) ↔ IsServedBy easy_mode participants p server
unfolding attribute_discovery_servers
attribute_discovery_servers-IsServedBy participants easy_mode p server =
    attributed easy_mode participants participants p server
