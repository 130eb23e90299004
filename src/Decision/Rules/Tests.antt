-- ===== src/Decision/Rules/Tests.antt =====
-- The tests of the source decide the conditions of the selection rules.
use fastdds_transport_viz.Prelude.{
  ℕ, String, Bool, true, false, ◌&&◌, ◌||◌, not, ◌≡◌, ◌↔◌, ◌⊎◌, inl, inr, refl, List, [], ◌∷◌, In,
  any, any-In, In-any, is_empty, arith, eq_iff, ==_iff, Bool-cases, ◌==◌, if◌then◌else◌,
}
use fastdds_transport_viz.Prelude.Text.{str_is_empty}
use fastdds_transport_viz.Model.Kinds.{LocatorKind, is_off, is_unknown}
use fastdds_transport_viz.Model.Endpoints.{Endpoint, bytes_eq, bytes_eq_sound, bytes_eq_refl}
use fastdds_transport_viz.Decision.Locators.{domains_intersect}
use fastdds_transport_viz.Decision.Locators.Pick.{Announces, has_kind_iff}
use fastdds_transport_viz.Decision.Locators.{has_kind}
use fastdds_transport_viz.Decision.Steps.{speaks_shm, have_domains, same_host_locators_hidden}
use fastdds_transport_viz.Decision.Verdicts.{
  types_unmatched, type_information_match, announced, equal_hash,
}
use fastdds_transport_viz.Decision.Rules.Conditions.{
  Announced, TypesMatch, SameHost, DataSharingPair, BothShm, HiddenLocators, SameHash,
}

str_is_empty_iff : (s : String) → (str_is_empty s ≡ true) ↔ (s ≡ "")
str_is_empty_iff String.[] = ((λ h. refl), (λ h. refl))
str_is_empty_iff (String.◌∷◌ c s) = ((λ h. cc), (λ h. cc))

announced_iff : (e : Endpoint) → (announced e ≡ true) ↔ Announced e
announced_iff e = ground (
  arith,
  str_is_empty_iff e.type_information_hash,
  str_is_empty_iff e.type_information_minimal_hash,
)

equal_hash_iff : (a b : String) → (equal_hash a b ≡ true) ↔ SameHash a b
equal_hash_iff a b = ground (arith, str_is_empty_iff a, eq_iff a b)

pub types_unmatched_iff : (w r : Endpoint) → (types_unmatched w r ≡ false) ↔ TypesMatch w r
unfolding types_unmatched type_information_match
types_unmatched_iff w r = ground (
  arith,
  announced_iff w,
  announced_iff r,
  equal_hash_iff w.type_information_hash r.type_information_hash,
  equal_hash_iff w.type_information_minimal_hash r.type_information_minimal_hash,
  eq_iff w.dds_type r.dds_type,
)

pub SameHost-iff : (w r : Endpoint) → (bytes_eq w.host_id r.host_id ≡ true) ↔ SameHost w r
SameHost-iff w r = (bytes_eq_sound w.host_id r.host_id, (λ e. rw e (bytes_eq_refl r.host_id)))

pub BothShm-iff : (w r : Endpoint) → ((speaks_shm w && speaks_shm r) ≡ true) ↔ BothShm w r
BothShm-iff w r = (
  (λ h. (
    (has_kind_iff w LocatorKind.shm).0 (ground arith),
    (has_kind_iff r LocatorKind.shm).0 (ground arith),
  )),
  (λ (a, b).
      ground (arith, (has_kind_iff w LocatorKind.shm).1 a, (has_kind_iff r LocatorKind.shm).1 b)),
)

domains_intersect_iff :
    (a b : List ℕ) → (domains_intersect a b ≡ true) ↔ ((x : ℕ) × In x a × In x b)
unfolding domains_intersect
domains_intersect_iff a b = (
  (λ h.
      let (x, m, e) = any-In (λ (x : ℕ). any (λ y. y == x) b) a h in
      let (y, n, f) = any-In (λ (y : ℕ). y == x) b e in (x, m, rw (← (==_iff y x).0 f) n)),
  (λ (x, m, n).
      In-any (λ (x : ℕ). any (λ y. y == x) b) a x m
        (In-any (λ (y : ℕ). y == x) b x n ((==_iff x x).1 refl))),
)

-- The tests by which the source comes to data-sharing, in one.
abbrev pub datasharing_pair : Endpoint → Endpoint → Bool
datasharing_pair w r =
    not (is_off w.qos.data_sharing)
    && not (is_off r.qos.data_sharing)
    && not (is_unknown w.qos.data_sharing || is_unknown r.qos.data_sharing)
    && not (
        have_domains w r
        && not (domains_intersect w.qos.data_sharing_domains r.qos.data_sharing_domains))

is_empty_iff : (xs : List ℕ) → (is_empty xs ≡ true) ↔ (xs ≡ [])
is_empty_iff [] = ((λ h. refl), (λ h. refl))
is_empty_iff (x ∷ xs) = ((λ h. cc), (λ h. cc))

pub datasharing_pair_sound : (w r : Endpoint) → datasharing_pair w r ≡ true → DataSharingPair w r
unfolding have_domains
datasharing_pair_sound w r h = (
  ground arith,
  ground arith,
  elim (Bool-cases (is_empty w.qos.data_sharing_domains)) [
    | inl e ↦ inl ((is_empty_iff _).0 e)
    | inr e ↦ elim (Bool-cases (is_empty r.qos.data_sharing_domains)) [
      | inl f ↦ inr (inl ((is_empty_iff _).0 f))
      | inr f ↦ inr (inr ((domains_intersect_iff _ _).0 (ground arith)))
    ]
  ],
)

pub datasharing_pair_complete : (w r : Endpoint) → DataSharingPair w r → datasharing_pair w r ≡ true
unfolding have_domains
datasharing_pair_complete w r (a, b, inl e) =
    ground (arith, (is_empty_iff w.qos.data_sharing_domains).1 e)
datasharing_pair_complete w r (a, b, inr (inl e)) =
    ground (arith, (is_empty_iff r.qos.data_sharing_domains).1 e)
datasharing_pair_complete w r (a, b, inr (inr x)) =
    ground
      (arith, (domains_intersect_iff w.qos.data_sharing_domains r.qos.data_sharing_domains).1 x)

-- Of two decided statements exactly one holds.
exactly_one :
    {P Q : Type 0} (p q : Bool)
    → (p ≡ true) ↔ P
    → (q ≡ true) ↔ Q
    → (not (if p then q else not q) ≡ true) ↔ ((P × (¬ Q)) ⊎ ((¬ P) × Q))
exactly_one true true dp dq = (
  (λ h. absurd (cc h)),
  (λ h. elim h [ inl a ↦ absurd (a.1 (dq.0 refl)) | inr a ↦ absurd (a.0 (dp.0 refl)) ]),
)
exactly_one true false dp dq = ((λ h. inl (dp.0 refl, (λ b. cc (dq.1 b)))), (λ h. refl))
exactly_one false true dp dq = ((λ h. inr ((λ a. cc (dp.1 a)), dq.0 refl)), (λ h. refl))
exactly_one false false dp dq = (
  (λ h. absurd (cc h)),
  (λ h. elim h [ inl a ↦ absurd (cc (dp.1 a.0)) | inr a ↦ absurd (cc (dq.1 a.1)) ]),
)

pub hidden_iff :
    (w r : Endpoint)
    → SameHost w r
    → (same_host_locators_hidden true w r ≡ true) ↔ HiddenLocators w r
unfolding same_host_locators_hidden
hidden_iff w r host = (
  (λ h. (host, ground arith, one_side.0 (ground arith))),
  (λ (_, f, c). ground (arith, one_side.1 c)),
)
  where
    one_side :
        (not (
            if has_kind w LocatorKind.shm
            then has_kind r LocatorKind.shm
            else not (has_kind r LocatorKind.shm))
          ≡ true)
        ↔ ((Announces w LocatorKind.shm × (¬ Announces r LocatorKind.shm))
            ⊎ ((¬ Announces w LocatorKind.shm) × Announces r LocatorKind.shm))
    one_side = exactly_one _ _ (has_kind_iff w LocatorKind.shm) (has_kind_iff r LocatorKind.shm)
