-- ===== src/Documents/Enumerations/Inverse.antt =====
-- The readers of the enumerations accept what model.cpp writes, and report everything else.
use fastdds_transport_viz.Prelude.{
  String, Bool, true, false, str_eq, Bool-cases, inl, inr, ◌↔◌, ◌⊎◌, ap, ◌∙◌, ◌≡◌, refl, arith,
  eq_iff,
}
use fastdds_transport_viz.Prelude.Text.{str_is_empty}
use fastdds_transport_viz.Model.Kinds.{
  LocatorKind, Transport, Confidence, TopicKind, GroupDirection, DataSharingKind,
}
use fastdds_transport_viz.Model.Names.{
  locator_kind_to_string, transport_to_string, confidence_to_string, topic_kind_to_string,
  direction_to_string, data_sharing_to_string,
}
use fastdds_transport_viz.Documents.Enumerations.{
  Parsed, parsed, parse_error, unknown_value, locator_kind, transport, confidence, topic_kind,
  group_direction, data_sharing,
}

-- A text is read as a value exactly if it is the value's name, and any other is an error that quotes
-- it.
abbrev pub Inverts : {A : Type 0} → (String → Parsed A) → (A → String) → String → Type 0
Inverts {A = A} read write what =
    ((s : String) (a : A) → (read s ≡ parsed a) ↔ (s ≡ write a))
    × ((s : String)
        → ((a : A) × (read s ≡ parsed a)) ⊎ (read s ≡ parse_error (unknown_value what s)))

parsed_cases :
    {A : Type 0} (x : Parsed A) → ((a : A) × (x ≡ parsed a)) ⊎ ((m : String) × (x ≡ parse_error m))
parsed_cases (parsed a) = inl (a, refl)
parsed_cases (parse_error m) = inr (m, refl)

inverts :
    {A : Type 0} (read : String → Parsed A) (write : A → String) (what : String)
    → ((a : A) → read (write a) ≡ parsed a)
    → ((s : String) (a : A) → read s ≡ parsed a → s ≡ write a)
    → ((s m : String) → read s ≡ parse_error m → m ≡ unknown_value what s)
    → Inverts read write what
inverts read write what names sound error = (
  λ s a. (sound s a, λ e. ap read e ∙ names a),
  λ s. elim (parsed_cases (read s)) [
    | inl found ↦ inl found
    | inr (m, e) ↦ inr (e ∙ ap parse_error (error s m e))
  ],
)

locator_kind-names : (a : LocatorKind) → locator_kind (locator_kind_to_string a) ≡ parsed a
unfolding locator_kind
locator_kind-names LocatorKind.udpv4 = refl
locator_kind-names LocatorKind.udpv6 = refl
locator_kind-names LocatorKind.tcpv4 = refl
locator_kind-names LocatorKind.tcpv6 = refl
locator_kind-names LocatorKind.shm = refl
locator_kind-names LocatorKind.invalid = refl

locator_kind_sound :
    (s : String) (a : LocatorKind) → locator_kind s ≡ parsed a → s ≡ locator_kind_to_string a
unfolding locator_kind
locator_kind_sound s a h = ground (
  arith,
  eq_iff s "UDPv4",
  eq_iff s "UDPv6",
  eq_iff s "TCPv4",
  eq_iff s "TCPv6",
  eq_iff s "SHM",
  eq_iff s "INVALID",
)

locator_kind-error :
    (s m : String) → locator_kind s ≡ parse_error m → m ≡ unknown_value "locator kind" s
unfolding locator_kind
locator_kind-error s m h = ground arith

transport-names : (a : Transport) → transport (transport_to_string a) ≡ parsed a
unfolding transport
transport-names Transport.udpv4 = refl
transport-names Transport.udpv6 = refl
transport-names Transport.tcpv4 = refl
transport-names Transport.tcpv6 = refl
transport-names Transport.shm = refl
transport-names Transport.data_sharing = refl
transport-names Transport.no_transport = refl

transport_sound : (s : String) (a : Transport) → transport s ≡ parsed a → s ≡ transport_to_string a
unfolding transport
transport_sound s a h = ground (
  arith,
  eq_iff s "UDPv4",
  eq_iff s "UDPv6",
  eq_iff s "TCPv4",
  eq_iff s "TCPv6",
  eq_iff s "SHM",
  eq_iff s "DATA_SHARING",
  eq_iff s "NONE",
)

transport-error : (s m : String) → transport s ≡ parse_error m → m ≡ unknown_value "transport" s
unfolding transport
transport-error s m h = ground arith

confidence-names : (a : Confidence) → confidence (confidence_to_string a) ≡ parsed a
unfolding confidence
confidence-names Confidence.certain = refl
confidence-names Confidence.likely = refl

confidence_sound :
    (s : String) (a : Confidence) → confidence s ≡ parsed a → s ≡ confidence_to_string a
unfolding confidence
confidence_sound s a h = ground (arith, eq_iff s "certain", eq_iff s "likely")

confidence-error : (s m : String) → confidence s ≡ parse_error m → m ≡ unknown_value "confidence" s
unfolding confidence
confidence-error s m h = ground arith

topic_kind-names :
    (a : TopicKind) (known : Bool) → topic_kind (topic_kind_to_string a) known ≡ (a, known)
unfolding topic_kind
topic_kind-names TopicKind.topic known = refl
topic_kind-names TopicKind.service known = refl
topic_kind-names TopicKind.action known = refl
topic_kind-names TopicKind.other known = refl

topic_kind_sound :
    (s : String) (a : TopicKind) → topic_kind s true ≡ (a, true) → s ≡ topic_kind_to_string a
unfolding topic_kind
topic_kind_sound s a h =
    ground (arith, eq_iff s "topic", eq_iff s "service", eq_iff s "action", eq_iff s "other")

empty_text : (s : String) → str_is_empty s ≡ true → s ≡ ""
empty_text String.[] h = refl
empty_text (String.◌∷◌ c s) h = absurd (ground arith)

group_direction-names :
    (a : GroupDirection) (known : Bool) → group_direction (direction_to_string a) known ≡ (a, known)
unfolding group_direction
group_direction-names GroupDirection.no_direction known = refl
group_direction-names GroupDirection.to_server known = refl
group_direction-names GroupDirection.to_client known = refl

group_direction_sound :
    (s : String) (a : GroupDirection)
    → group_direction s true ≡ (a, true)
    → s ≡ direction_to_string a
unfolding group_direction
group_direction_sound s a h =
    ground (arith, eq_iff s "to_server", eq_iff s "to_client", empty_text s)

data_sharing-names : (a : DataSharingKind) → data_sharing (data_sharing_to_string a) ≡ a
unfolding data_sharing
data_sharing-names DataSharingKind.unknown = refl
data_sharing-names DataSharingKind.off = refl
data_sharing-names DataSharingKind.on = refl
data_sharing-names DataSharingKind.auto = refl

-- A text is some value's name, or clears the flag and is read as a given value.
abbrev pub Unrecognised : {A : Type 0} → (String → A × Bool) → (A → String) → A → String → Type 0
Unrecognised {A = A} read write fallback s =
    ((a : A) × (read s ≡ (a, true)) × (s ≡ write a)) ⊎ (read s ≡ (fallback, false))

flag_cases : {A : Type 0} (x : A × Bool) → (x ≡ (x.0, true)) ⊎ (x ≡ (x.0, false))
flag_cases (a, true) = inl refl
flag_cases (a, false) = inr refl

topic_kind_fallback :
    (s : String) → (topic_kind s true).1 ≡ false → topic_kind s true ≡ (TopicKind.other, false)
unfolding topic_kind
topic_kind_fallback s h = ground arith

topic_kind-Unrecognised :
    (s : String) → Unrecognised (λ t. topic_kind t true) topic_kind_to_string TopicKind.other s
topic_kind-Unrecognised s = elim (flag_cases (topic_kind s true)) [
  | inl e ↦ inl ((topic_kind s true).0, e, topic_kind_sound s (topic_kind s true).0 e)
  | inr e ↦ inr (topic_kind_fallback s (ap (λ (x : TopicKind × Bool). x.1) e))
]

group_direction_fallback :
    (s : String)
    → (group_direction s true).1 ≡ false
    → group_direction s true ≡ (GroupDirection.no_direction, false)
unfolding group_direction
group_direction_fallback s h = ground arith

group_direction-Unrecognised :
    (s : String)
    → Unrecognised (λ t. group_direction t true) direction_to_string GroupDirection.no_direction s
group_direction-Unrecognised s = elim (flag_cases (group_direction s true)) [
  | inl e ↦
      inl ((group_direction s true).0, e, group_direction_sound s (group_direction s true).0 e)
  | inr e ↦ inr (group_direction_fallback s (ap (λ (x : GroupDirection × Bool). x.1) e))
]

data_sharing_unrecognised :
    (s : String)
    → (data_sharing s ≡ DataSharingKind.unknown) ⊎ (s ≡ data_sharing_to_string (data_sharing s))
unfolding data_sharing
data_sharing_unrecognised s = elim (Bool-cases (str_eq s "OFF")) [
  | inl e ↦ inr (rw e ((eq_iff s "OFF").0 e))
  | inr off ↦ elim (Bool-cases (str_eq s "ON")) [
    | inl e ↦ inr (rw (off, e) ((eq_iff s "ON").0 e))
    | inr on ↦ elim (Bool-cases (str_eq s "AUTO")) [
      | inl e ↦ inr (rw (off, on, e) ((eq_iff s "AUTO").0 e))
      | inr auto ↦ inl (rw (off, on, auto) refl)
    ]
  ]
]

-- A text is read as a kind of locator, a transport or a confidence exactly if it is the name that
-- model.cpp writes, and the error of any other text quotes it. Kinds of topics and directions are
-- read back with the flag kept; a text leaves the flag set with a value exactly if it is its name,
-- and any other text clears the flag and is read as `other` or no direction. Data-sharing kinds are
-- read back, and any other text is read as unknown, with neither an error nor a flag.
pub enumerations_inverse :
    Inverts locator_kind locator_kind_to_string "locator kind"
    × Inverts transport transport_to_string "transport"
    × Inverts confidence confidence_to_string "confidence"
    × ((a : TopicKind) (known : Bool) → topic_kind (topic_kind_to_string a) known ≡ (a, known))
    × ((s : String) (a : TopicKind)
        → (topic_kind s true ≡ (a, true)) ↔ (s ≡ topic_kind_to_string a))
    × ((a : GroupDirection) (known : Bool)
        → group_direction (direction_to_string a) known ≡ (a, known))
    × ((s : String) (a : GroupDirection)
        → (group_direction s true ≡ (a, true)) ↔ (s ≡ direction_to_string a))
    × ((a : DataSharingKind) → data_sharing (data_sharing_to_string a) ≡ a)
    × ((s : String) → Unrecognised (λ t. topic_kind t true) topic_kind_to_string TopicKind.other s)
    × ((s : String)
        → Unrecognised
            (λ t. group_direction t true)
            direction_to_string
            GroupDirection.no_direction
            s)
    × ((s : String)
        → (data_sharing s ≡ DataSharingKind.unknown)
          ⊎ (s ≡ data_sharing_to_string (data_sharing s)))
enumerations_inverse = (
  inverts locator_kind locator_kind_to_string "locator kind" locator_kind-names locator_kind_sound
      locator_kind-error,
  inverts transport transport_to_string "transport" transport-names transport_sound transport-error,
  inverts confidence confidence_to_string "confidence" confidence-names confidence_sound
      confidence-error,
  topic_kind-names,
  λ s a. (topic_kind_sound s a, λ e. ap (λ t. topic_kind t true) e ∙ topic_kind-names a true),
  group_direction-names,
  λ s a. (
    group_direction_sound s a,
    λ e. ap (λ t. group_direction t true) e ∙ group_direction-names a true,
  ),
  data_sharing-names,
  topic_kind-Unrecognised,
  group_direction-Unrecognised,
  data_sharing_unrecognised,
)
