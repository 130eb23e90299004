-- ===== src/Model/Endpoints.antt =====
-- model.hpp: Locator, EndpointQos and Endpoint.
-- A duration of the source is a `double` of seconds that discovery fills from a DDS duration: a
-- whole number of nanoseconds, or infinite. It is held here in nanoseconds, without the rounding
-- of the conversion.
use fastdds_transport_viz.Prelude.{
  ℕ, String, Bool, true, false, ◌&&◌, ◌≡◌, List, [], ◌∷◌, ◌==◌, ◌↔◌, ltb, str_eq, arith, eq_iff,
}
use fastdds_transport_viz.Model.Kinds.{
  LocatorKind, DataSharingKind, ShmVisibility, kind_eq, kind_eq_iff,
}

pub record Locator : Type 0 where
  pub kind : LocatorKind
  pub address : String
  pub port : ℕ

-- `Locator::operator==`
abbrev pub locator_eq : Locator → Locator → Bool
locator_eq a b = kind_eq a.kind b.kind && str_eq a.address b.address && a.port == b.port

pub locator_eq_iff : (a b : Locator) → (locator_eq a b ≡ true) ↔ (a ≡ b)
locator_eq_iff a b = ground (arith, kind_eq_iff a.kind b.kind, eq_iff a.address b.address)

abbrev pub no_locator : Locator
no_locator = record { kind = LocatorKind.invalid; address = ""; port = 0 }

pub data Seconds : Type 0 where
  nanoseconds : ℕ → Seconds
  infinity : Seconds

-- `a > b`
abbrev pub longer : Seconds → Seconds → Bool
longer (nanoseconds a) (nanoseconds b) = ltb b a
longer infinity (nanoseconds _) = true
longer _ infinity = false

pub record EndpointQos : Type 0 where
  pub reliability : String
  pub durability : String
  pub data_sharing : DataSharingKind
  pub data_sharing_domains : List ℕ
  pub deadline_s : Seconds
  pub liveliness : String
  pub liveliness_lease_s : Seconds
  pub ownership : String
  pub partitions : List String

pub record Endpoint : Type 0 where
  pub is_writer : Bool
  pub guid : String
  pub guid_bytes : List ℕ
  pub host_id : List ℕ
  pub participant_guid_prefix : String
  pub dds_topic : String
  pub dds_type : String
  pub ros_topic : String
  pub ros_type : String
  pub type_hash : String
  pub type_information_hash : String
  pub type_information_minimal_hash : String
  pub node_name : String
  pub unicast : List Locator
  pub multicast : List Locator
  pub qos : EndpointQos
  pub same_host_locators_filtered : Bool
  pub participant_shm_ports : List ℕ
  pub participant_shm_visibility : ShmVisibility
  pub datasharing_segment_visibility : ShmVisibility
  pub buffer_parent_guid : String
  pub buffer_companion_guids : List String

-- `const Endpoint *`
pub record EndpointPtr : Type 0 where
  pub place : ℕ
  pub target : Endpoint

-- `==` on std::array and std::vector of numbers.
abbrev pub bytes_eq : List ℕ → List ℕ → Bool
bytes_eq [] [] = true
bytes_eq (a ∷ as') (b ∷ bs) = a == b && bytes_eq as' bs
bytes_eq _ _ = false

pub bytes_eq_sound : (a b : List ℕ) → bytes_eq a b ≡ true → a ≡ b
bytes_eq_sound [] [] h = ground arith
bytes_eq_sound [] (b ∷ bs) h = ground arith
bytes_eq_sound (a ∷ as') [] h = ground arith
bytes_eq_sound (a ∷ as') (b ∷ bs) h = ground (arith, bytes_eq_sound as' bs)

pub bytes_eq_refl : (a : List ℕ) → bytes_eq a a ≡ true
bytes_eq_refl [] = ground arith
bytes_eq_refl (a ∷ as') = ground (arith, bytes_eq_refl as')

pub bytes_eq_sym : (a b : List ℕ) → bytes_eq a b ≡ bytes_eq b a
bytes_eq_sym [] [] = ground arith
bytes_eq_sym [] (b ∷ bs) = ground arith
bytes_eq_sym (a ∷ as') [] = ground arith
bytes_eq_sym (a ∷ as') (b ∷ bs) = ground (arith, bytes_eq_sym as' bs)
