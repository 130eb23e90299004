-- ===== src/Observation/Destinations/Measured.antt =====
-- Which samples measure a pair.
use fastdds_transport_viz.Prelude.{
  ℕ, ◌<◌, String, Bool, true, false, ◌||◌, ◌&&◌, not, ◌≡◌, ◌↔◌, ◌⊎◌, inl, inr, refl, subst,
  Bool-cases, In, any-In, In-any, eq_iff, List, [], ◌∷◌, ◌++◌, any, ltb, map, str_eq, arith,
  if◌then◌else◌, ◌==◌, any-append,
}
use fastdds_transport_viz.Model.Kinds.{LocatorKind, kind_eq, kind_eq_iff}
use fastdds_transport_viz.Model.Endpoints.{Locator, Endpoint}
use fastdds_transport_viz.Decision.Locators.{has_text}
use fastdds_transport_viz.Model.Stats.{TrafficSample}
use fastdds_transport_viz.Observation.Destinations.{
  ReaderDestinations, has_port, has_group, skipped, add_reader, add_readers, reader_destinations,
  measures_a_pair,
}

abbrev listens : Locator → Endpoint → Bool
listens dst e =
    any (λ l. kind_eq l.kind dst.kind && l.port == dst.port) e.unicast
    || any (λ l. kind_eq l.kind dst.kind && str_eq l.address dst.address && l.port == dst.port)
        e.multicast

abbrev goes_to : Locator → ReaderDestinations → Bool
goes_to dst out = has_port dst out.unicast_ports || has_group dst out.multicast_locators

has_port-map :
    (dst : Locator) (ls : List Locator)
    → has_port dst (map (λ l. (l.kind, l.port)) ls)
      ≡ any (λ l. kind_eq l.kind dst.kind && l.port == dst.port) ls
unfolding has_port
has_port-map dst [] = refl
has_port-map dst (l ∷ ls) = ground (arith, has_port-map dst ls)

has_group-map :
    (dst : Locator) (ls : List Locator)
    → has_group dst (map (λ l. (l.kind, l.address, l.port)) ls)
      ≡ any (λ l. kind_eq l.kind dst.kind && str_eq l.address dst.address && l.port == dst.port) ls
unfolding has_group
has_group-map dst [] = refl
has_group-map dst (l ∷ ls) = ground (arith, has_group-map dst ls)

has_port-append :
    (dst : Locator) (xs ys : List (LocatorKind × ℕ))
    → has_port dst (xs ++ ys) ≡ (has_port dst xs || has_port dst ys)
unfolding has_port
has_port-append dst xs ys = any-append _ xs ys

has_group-append :
    (dst : Locator) (xs ys : List (LocatorKind × String × ℕ))
    → has_group dst (xs ++ ys) ≡ (has_group dst xs || has_group dst ys)
unfolding has_group
has_group-append dst xs ys = any-append _ xs ys

goes_to-add_reader :
    (dst : Locator) (e : Endpoint) (out : ReaderDestinations)
    → goes_to dst (add_reader e out) ≡ (goes_to dst out || listens dst e)
goes_to-add_reader dst e out =
    let ports : List (LocatorKind × ℕ) = map (λ l. (l.kind, l.port)) e.unicast in
    let groups : List (LocatorKind × String × ℕ) =
      map (λ l. (l.kind, l.address, l.port)) e.multicast in
    ground (
      arith,
      has_port-append dst out.unicast_ports ports,
      has_port-map dst e.unicast,
      has_group-append dst out.multicast_locators groups,
      has_group-map dst e.multicast,
    )

goes_to-add_readers :
    (own_prefixes : List String) (dst : Locator) (es : List Endpoint) (out : ReaderDestinations)
    → goes_to dst (add_readers own_prefixes es out)
      ≡ (goes_to dst out || any (λ e. not (skipped own_prefixes e) && listens dst e) es)
unfolding add_readers
goes_to-add_readers own_prefixes dst [] out = ground arith
goes_to-add_readers own_prefixes dst (e ∷ es) out =
    cases (skipped own_prefixes e) (goes_to-add_readers own_prefixes dst es out)
      (goes_to-add_readers own_prefixes dst es (add_reader e out))
  where
    cases :
        (b : Bool)
        → goes_to dst (add_readers own_prefixes es out)
          ≡ (goes_to dst out || any (λ e. not (skipped own_prefixes e) && listens dst e) es)
        → goes_to dst (add_readers own_prefixes es (add_reader e out)) ≡ (
            goes_to dst (add_reader e out)
            || any (λ e. not (skipped own_prefixes e) && listens dst e) es)
        → goes_to dst (add_readers own_prefixes es (if b then out else add_reader e out)) ≡ (
            goes_to dst out
            || (not b && listens dst e
                || any (λ e. not (skipped own_prefixes e) && listens dst e) es))
    cases true ih added = ground (arith, ih)
    cases false ih added = ground (arith, added, goes_to-add_reader dst e out)

measures_a_pair-any :
    (traffic : TrafficSample) (endpoints : List Endpoint) (own_prefixes : List String)
    → measures_a_pair traffic (reader_destinations endpoints own_prefixes) ≡ (
        ltb traffic.packets_first traffic.packets
        && any (λ e. not (skipped own_prefixes e) && listens traffic.dst e) endpoints)
unfolding measures_a_pair reader_destinations has_port has_group
measures_a_pair-any traffic endpoints own_prefixes =
    let none_yet : ReaderDestinations = record { unicast_ports = []; multicast_locators = [] } in
    ground (arith, goes_to-add_readers own_prefixes traffic.dst endpoints none_yet)

-- A reader announces the destination: a unicast locator has its kind and port, whatever the address,
-- or a multicast locator is the destination.
abbrev pub Announces : Endpoint → Locator → Type 0
Announces e dst =
    ((l : Locator) × In l e.unicast × (l.kind ≡ dst.kind) × (l.port ≡ dst.port))
    ⊎ In dst e.multicast

-- The endpoint is a reader of a participant that is none of the tool's own.
abbrev pub IsForeignReader : List String → Endpoint → Type 0
IsForeignReader own_prefixes e =
    (e.is_writer ≡ false) × (¬ In e.participant_guid_prefix own_prefixes)

abbrev same_port : Locator → Locator → Bool
same_port dst l = kind_eq l.kind dst.kind && l.port == dst.port

abbrev same_group : Locator → Locator → Bool
same_group dst l = kind_eq l.kind dst.kind && str_eq l.address dst.address && l.port == dst.port

same_group_iff : (dst l : Locator) → (same_group dst l ≡ true) ↔ (l ≡ dst)
same_group_iff dst l = ground (arith, kind_eq_iff l.kind dst.kind, eq_iff l.address dst.address)

listens_iff : (dst : Locator) (e : Endpoint) → (listens dst e ≡ true) ↔ Announces e dst
listens_iff dst e = (
  λ h. elim (Bool-cases (any (same_port dst) e.unicast)) [
    | inl u ↦
        let (l, m, f) = any-In (same_port dst) e.unicast u in
        inl (l, m, (kind_eq_iff l.kind dst.kind).0 (ground arith), ground arith)
    | inr n ↦
        let (l, m, f) = any-In (same_group dst) e.multicast (ground arith) in
        inr (subst (λ x. In x e.multicast) ((same_group_iff dst l).0 f) m)
  ],
  λ a. elim a [
    | inl (l, m, k, q) ↦
        let found =
          In-any (same_port dst) e.unicast l m (ground (arith, kind_eq_iff l.kind dst.kind)) in
        ground arith
    | inr m ↦
        let found = In-any (same_group dst) e.multicast dst m ((same_group_iff dst dst).1 refl) in
        ground arith
  ],
)

has_text_iff : (c : String) (codes : List String) → (has_text c codes ≡ true) ↔ In c codes
has_text_iff c codes = (
  λ h.
      let (d, m, e) = any-In (λ d. str_eq d c) codes h in
      subst (λ x. In x codes) ((eq_iff d c).0 e) m,
  λ m. In-any (λ d. str_eq d c) codes c m ((eq_iff c c).1 refl),
)

foreign_iff :
    (own_prefixes : List String) (e : Endpoint)
    → (not (skipped own_prefixes e) ≡ true) ↔ IsForeignReader own_prefixes e
foreign_iff own_prefixes e = ground (arith, has_text_iff e.participant_guid_prefix own_prefixes)

-- A sample measures a pair exactly when its counter rose during the observation and a reader that is
-- not the tool's own announces its destination.
pub measures_a_pair-reader_destinations :
    (traffic : TrafficSample) (endpoints : List Endpoint) (own_prefixes : List String)
    → (measures_a_pair traffic (reader_destinations endpoints own_prefixes) ≡ true) ↔ (
        (traffic.packets_first < traffic.packets)
        × ((e : Endpoint) × In e endpoints
            × IsForeignReader own_prefixes e
            × Announces e traffic.dst))
measures_a_pair-reader_destinations traffic endpoints own_prefixes =
    let test : Endpoint → Bool = λ e. not (skipped own_prefixes e) && listens traffic.dst e in
    let same = measures_a_pair-any traffic endpoints own_prefixes in
    (
      λ h.
          let (e, m, f) = any-In test endpoints (ground arith) in
          (
            ground arith,
            (
              e,
              m,
              (foreign_iff own_prefixes e).0 (ground arith),
              (listens_iff traffic.dst e).0 (ground arith),
            ),
          ),
      λ (rose, (e, m, foreign, announces)).
          let a = (foreign_iff own_prefixes e).1 foreign in
          let b = (listens_iff traffic.dst e).1 announces in
          let found = In-any test endpoints e m (ground arith) in ground arith,
    )
