-- ===== src/Model/Kinds.antt =====
-- model.hpp: the enumerations, and their equality tests.
use fastdds_transport_viz.Prelude.{Bool, true, false, ◌≡◌, ◌↔◌, arith}

pub data LocatorKind : Type 0 where
  invalid udpv4 udpv6 tcpv4 tcpv6 shm : LocatorKind

pub data DataSharingKind : Type 0 where
  unknown off on auto : DataSharingKind

pub data ShmVisibility : Type 0 where
  unprobed visible not_visible : ShmVisibility

pub data PortLock : Type 0 where
  unprobed held own absent stale unknown : PortLock

pub data Transport : Type 0 where
  udpv4 udpv6 tcpv4 tcpv6 shm data_sharing no_transport : Transport

pub data Confidence : Type 0 where
  certain likely : Confidence

pub data TopicKind : Type 0 where
  topic service action other : TopicKind

pub data GroupDirection : Type 0 where
  no_direction to_server to_client : GroupDirection

pub data KeyMode : Type 0 where
  guid node : KeyMode

-- `==` on the enumerations compares the numbers of the enumerators.
abbrev pub kind_eq : LocatorKind → LocatorKind → Bool
kind_eq LocatorKind.invalid LocatorKind.invalid = true
kind_eq LocatorKind.udpv4 LocatorKind.udpv4 = true
kind_eq LocatorKind.udpv6 LocatorKind.udpv6 = true
kind_eq LocatorKind.tcpv4 LocatorKind.tcpv4 = true
kind_eq LocatorKind.tcpv6 LocatorKind.tcpv6 = true
kind_eq LocatorKind.shm LocatorKind.shm = true
kind_eq _ _ = false

pub kind_eq_iff : (a b : LocatorKind) → (kind_eq a b ≡ true) ↔ (a ≡ b)
kind_eq_iff a b = ground arith

abbrev pub transport_eq : Transport → Transport → Bool
transport_eq Transport.udpv4 Transport.udpv4 = true
transport_eq Transport.udpv6 Transport.udpv6 = true
transport_eq Transport.tcpv4 Transport.tcpv4 = true
transport_eq Transport.tcpv6 Transport.tcpv6 = true
transport_eq Transport.shm Transport.shm = true
transport_eq Transport.data_sharing Transport.data_sharing = true
transport_eq Transport.no_transport Transport.no_transport = true
transport_eq _ _ = false

pub transport_eq_iff : (a b : Transport) → (transport_eq a b ≡ true) ↔ (a ≡ b)
transport_eq_iff a b = ground arith

abbrev pub confidence_eq : Confidence → Confidence → Bool
confidence_eq Confidence.certain Confidence.certain = true
confidence_eq Confidence.likely Confidence.likely = true
confidence_eq _ _ = false

abbrev pub is_visible : ShmVisibility → Bool
is_visible ShmVisibility.visible = true
is_visible _ = false

abbrev pub is_not_visible : ShmVisibility → Bool
is_not_visible ShmVisibility.not_visible = true
is_not_visible _ = false

abbrev pub is_off : DataSharingKind → Bool
is_off DataSharingKind.off = true
is_off _ = false

abbrev pub is_unknown : DataSharingKind → Bool
is_unknown DataSharingKind.unknown = true
is_unknown _ = false
