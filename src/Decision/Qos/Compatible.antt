-- ===== src/Decision/Qos/Compatible.antt =====
-- The request and offer rules of DDS, stated on their own, and that the code decides them.
use fastdds_transport_viz.Prelude.{
  ◌≤◌, String, Bool, true, false, ◌≡◌, ◌↔◌, ◌⊎◌, inl, inr, refl, sym, ◌∙◌, Bool-cases, List, [],
  ◌∷◌, any, In, any-In, In-any, arith, str_eq, eq_iff, ◌||◌, ◌++◌, not,
}
use fastdds_transport_viz.Model.Endpoints.{
  Endpoint, EndpointQos, Seconds, nanoseconds, infinity, longer,
}
use fastdds_transport_viz.Decision.Qos.{
  durability_rank, liveliness_rank, or_default, rank_below, when, partitions_match,
  qos_incompatibilities, reliability_fails, durability_fails, liveliness_fails,
}

-- The promised duration is at most the requested one.
abbrev AtMost : Seconds → Seconds → Type 0
AtMost (nanoseconds a) (nanoseconds b) = a ≤ b
AtMost infinity (nanoseconds _) = ⊥
AtMost _ infinity = Unit

-- The kinds of durability and of liveliness, the weakest first.
abbrev durabilities : List String
durabilities = "VOLATILE" ∷ "TRANSIENT_LOCAL" ∷ "TRANSIENT" ∷ "PERSISTENT" ∷ []

abbrev livelinesses : List String
livelinesses = "AUTOMATIC" ∷ "MANUAL_BY_PARTICIPANT" ∷ "MANUAL_BY_TOPIC" ∷ []

-- One name stands before another in a list; a name that the list lacks does not.
abbrev Before : List String → String → String → Type 0
Before [] a b = ⊥
Before (n ∷ ns) a b = ((a ≡ n) × In b ns) ⊎ Before ns a b

module _ (fnmatch : String → String → Bool) where
  abbrev NameMatches : String → String → Type 0
  NameMatches a b = (a ≡ b) ⊎ ((fnmatch a b ≡ true) ⊎ (fnmatch b a ≡ true))

  -- One partition of the writer matches one of the reader.
  abbrev SharesPartition : List String → List String → Type 0
  SharesPartition w r =
      (a : String) × In a (or_default w) × ((b : String) × In b (or_default r) × NameMatches a b)

  pub record Compatible (w r : EndpointQos) : Type 0 where
    pub reliability : ¬ ((w.reliability ≡ "BEST_EFFORT") × (r.reliability ≡ "RELIABLE"))
    pub durability : ¬ Before durabilities w.durability r.durability
    pub deadline : AtMost w.deadline_s r.deadline_s
    pub liveliness : ¬ Before livelinesses w.liveliness r.liveliness
    pub lease : AtMost w.liveliness_lease_s r.liveliness_lease_s
    pub ownership : w.ownership ≡ r.ownership
    pub partitions : SharesPartition w.partitions r.partitions

longer_iff : (a b : Seconds) → (longer a b ≡ false) ↔ AtMost a b
longer_iff (nanoseconds a) (nanoseconds b) = ground arith
longer_iff (nanoseconds a) infinity = ground arith
longer_iff infinity (nanoseconds b) = ground arith
longer_iff infinity infinity = ground arith

apart : (x y : String) → str_eq x y ≡ false → (a : String) → str_eq a x ≡ true → str_eq a y ≡ false
apart x y h a e = elim (Bool-cases (str_eq a y)) [
  | inl f ↦ absurd (cc (h, (eq_iff x y).1 (sym ((eq_iff a x).0 e) ∙ (eq_iff a y).0 f)))
  | inr f ↦ f
]

durability_below_iff :
    (a b : String)
    → (rank_below (durability_rank a) (durability_rank b) ≡ false) ↔ (¬ Before durabilities a b)
unfolding durability_rank
durability_below_iff a b = ground (
  arith,
  eq_iff a "VOLATILE",
  eq_iff a "TRANSIENT_LOCAL",
  eq_iff a "TRANSIENT",
  eq_iff a "PERSISTENT",
  apart "VOLATILE" "TRANSIENT_LOCAL" refl a,
  apart "VOLATILE" "TRANSIENT" refl a,
  apart "VOLATILE" "PERSISTENT" refl a,
  apart "TRANSIENT_LOCAL" "TRANSIENT" refl a,
  apart "TRANSIENT_LOCAL" "PERSISTENT" refl a,
  apart "TRANSIENT" "PERSISTENT" refl a,
  eq_iff b "VOLATILE",
  eq_iff b "TRANSIENT_LOCAL",
  eq_iff b "TRANSIENT",
  eq_iff b "PERSISTENT",
  apart "VOLATILE" "TRANSIENT_LOCAL" refl b,
  apart "VOLATILE" "TRANSIENT" refl b,
  apart "VOLATILE" "PERSISTENT" refl b,
  apart "TRANSIENT_LOCAL" "TRANSIENT" refl b,
  apart "TRANSIENT_LOCAL" "PERSISTENT" refl b,
  apart "TRANSIENT" "PERSISTENT" refl b,
)

liveliness_below_iff :
    (a b : String)
    → (rank_below (liveliness_rank a) (liveliness_rank b) ≡ false) ↔ (¬ Before livelinesses a b)
unfolding liveliness_rank
liveliness_below_iff a b = ground (
  arith,
  eq_iff a "AUTOMATIC",
  eq_iff a "MANUAL_BY_PARTICIPANT",
  eq_iff a "MANUAL_BY_TOPIC",
  apart "AUTOMATIC" "MANUAL_BY_PARTICIPANT" refl a,
  apart "AUTOMATIC" "MANUAL_BY_TOPIC" refl a,
  apart "MANUAL_BY_PARTICIPANT" "MANUAL_BY_TOPIC" refl a,
  eq_iff b "AUTOMATIC",
  eq_iff b "MANUAL_BY_PARTICIPANT",
  eq_iff b "MANUAL_BY_TOPIC",
  apart "AUTOMATIC" "MANUAL_BY_PARTICIPANT" refl b,
  apart "AUTOMATIC" "MANUAL_BY_TOPIC" refl b,
  apart "MANUAL_BY_PARTICIPANT" "MANUAL_BY_TOPIC" refl b,
)

when_nil : (b : Bool) (code : String) → (when b code ≡ []) ↔ (b ≡ false)
when_nil true code = ((λ e. cc), (λ e. cc))
when_nil false code = ((λ e. refl), (λ e. refl))

append_nil_iff : (xs ys : List String) → (xs ++ ys ≡ []) ↔ ((xs ≡ []) × (ys ≡ []))
append_nil_iff [] ys = ((λ e. (refl, e)), (λ p. p.1))
append_nil_iff (x ∷ xs) ys = ((λ e. cc), (λ p. absurd (cc (p.0))))

module _ (fnmatch : String → String → Bool) where
  abbrev name_test : String → String → Bool
  name_test a b = str_eq a b || fnmatch a b || fnmatch b a

  name_test_iff : (a b : String) → (name_test a b ≡ true) ↔ NameMatches fnmatch a b
  name_test_iff a b = ground (arith, eq_iff a b)

  partitions_match_sound :
      (w r : List String) → partitions_match fnmatch w r ≡ true → SharesPartition fnmatch w r
  unfolding partitions_match
  partitions_match_sound w r h =
      let (a, m, e) = any-In (λ a. any (λ b. name_test a b) (or_default r)) (or_default w) h in
      let (b, n, f) = any-In (λ b. name_test a b) (or_default r) e in
      (a, m, (b, n, (name_test_iff a b).0 f))

  partitions_match_complete :
      (w r : List String) → SharesPartition fnmatch w r → partitions_match fnmatch w r ≡ true
  unfolding partitions_match
  partitions_match_complete w r (a, m, (b, n, f)) =
      In-any (λ a. any (λ b. name_test a b) (or_default r)) (or_default w) a m
        (In-any (λ b. name_test a b) (or_default r) b n ((name_test_iff a b).1 f))

  -- Each of the six tests fails.
  abbrev NoneFails : EndpointQos → EndpointQos → Type 0
  NoneFails w r =
      (reliability_fails fnmatch w r ≡ false)
      × (durability_fails fnmatch w r ≡ false)
      × (longer w.deadline_s r.deadline_s ≡ false)
      × (liveliness_fails fnmatch w r ≡ false)
      × (not (str_eq w.ownership r.ownership) ≡ false)
      × (not (partitions_match fnmatch w.partitions r.partitions) ≡ false)

  nil_iff : (w r : Endpoint) → (qos_incompatibilities fnmatch w r ≡ []) ↔ NoneFails w.qos r.qos
  unfolding qos_incompatibilities
  nil_iff w r = (
    (λ e.
        let (a, e1) = (append_nil_iff _ _).0 e in
        let (b, e2) = (append_nil_iff _ _).0 e1 in
        let (c, e3) = (append_nil_iff _ _).0 e2 in
        let (d, e4) = (append_nil_iff _ _).0 e3 in
        let (f, g) = (append_nil_iff _ _).0 e4 in
        (
          (when_nil _ _).0 a,
          (when_nil _ _).0 b,
          (when_nil _ _).0 c,
          (when_nil _ _).0 d,
          (when_nil _ _).0 f,
          (when_nil _ _).0 g,
        )),
    (λ (a, b, c, d, f, g). rw (a, b, c, d, f, g)),
  )

  NoneFails→Compatible : (w r : EndpointQos) → NoneFails w r → Compatible fnmatch w r
  NoneFails→Compatible w r h = record {
    reliability =
        ground (arith, eq_iff w.reliability "BEST_EFFORT", eq_iff r.reliability "RELIABLE");
    durability = (durability_below_iff w.durability r.durability).0 h.1;
    deadline = (longer_iff _ _).0 h.2;
    liveliness = (liveliness_below_iff w.liveliness r.liveliness).0 (ground arith);
    lease = (longer_iff _ _).0 (ground arith);
    ownership = ground (arith, eq_iff w.ownership r.ownership);
    partitions = partitions_match_sound _ _ (ground arith);
  }

  Compatible→NoneFails : (w r : EndpointQos) → Compatible fnmatch w r → NoneFails w r
  Compatible→NoneFails w r c = (
    ground (arith, eq_iff w.reliability "BEST_EFFORT", eq_iff r.reliability "RELIABLE"),
    (durability_below_iff w.durability r.durability).1 c.durability,
    (longer_iff _ _).1 c.deadline,
    ground (
      arith,
      (liveliness_below_iff w.liveliness r.liveliness).1 c.liveliness,
      (longer_iff w.liveliness_lease_s r.liveliness_lease_s).1 c.lease,
    ),
    ground (arith, eq_iff w.ownership r.ownership),
    ground (arith, partitions_match_complete w.partitions r.partitions c.partitions),
  )

  -- The list of incompatible policies is empty exactly when the writer's offer satisfies the
  -- reader's request on every policy and the two share a partition.
  pub qos_incompatibilities-nil_iff :
      (w r : Endpoint) → (qos_incompatibilities fnmatch w r ≡ []) ↔ Compatible fnmatch w.qos r.qos
  qos_incompatibilities-nil_iff w r = (
    (λ e. NoneFails→Compatible w.qos r.qos ((nil_iff w r).0 e)),
    (λ c. (nil_iff w r).1 (Compatible→NoneFails w.qos r.qos c)),
  )
