-- ===== src/Measurements/Locators.antt =====
-- decision.cpp: which measured locators belong to a reader.
use fastdds_transport_viz.Prelude.{
  String, Bool, true, ◌||◌, ◌&&◌, List, ◌∷◌, ◌++◌, any, str_eq, if◌then◌else◌, ◌==◌,
}
use fastdds_transport_viz.Model.Kinds.{LocatorKind, Transport, kind_eq}
use fastdds_transport_viz.Model.Endpoints.{Locator, Endpoint}
use fastdds_transport_viz.Model.Pairs.{Verdict}
use fastdds_transport_viz.Decision.Locators.{has_text}

unfoldable pub same_locator : Locator → Locator → Bool
same_locator a b =
    kind_eq a.kind b.kind
    && a.port == b.port
    && (kind_eq a.kind LocatorKind.shm || str_eq a.address b.address)

abbrev is_loopback : String → Bool
is_loopback address = str_eq address "127.0.0.1" || str_eq address "::1"

unfoldable pub same_locator_local : Locator → Locator → List String → Bool
same_locator_local a b local =
    if same_locator a b
    then true
    else kind_eq a.kind b.kind
      && a.port == b.port
      && ((is_loopback a.address && has_text b.address local)
          || (is_loopback b.address && has_text a.address local))

unfoldable pub reader_has_locator : Endpoint → Locator → List String → Bool
reader_has_locator reader l local =
    any (λ rl. same_locator_local rl l local) (reader.unicast ++ reader.multicast)

unfoldable pub transport_for_kind : LocatorKind → Transport
transport_for_kind LocatorKind.udpv4 = Transport.udpv4
transport_for_kind LocatorKind.udpv6 = Transport.udpv6
transport_for_kind LocatorKind.tcpv4 = Transport.tcpv4
transport_for_kind LocatorKind.tcpv6 = Transport.tcpv6
transport_for_kind LocatorKind.shm = Transport.shm
transport_for_kind LocatorKind.invalid = Transport.no_transport

unfoldable pub measured_reason : Transport → String
measured_reason Transport.udpv4 = "measured-udpv4-traffic"
measured_reason Transport.udpv6 = "measured-udpv6-traffic"
measured_reason Transport.tcpv4 = "measured-tcpv4-traffic"
measured_reason Transport.tcpv6 = "measured-tcpv6-traffic"
measured_reason Transport.shm = "measured-shm-traffic"
measured_reason Transport.data_sharing = "measured-unknown-traffic"
measured_reason Transport.no_transport = "measured-unknown-traffic"

-- The GUID of an endpoint, then those of its native-buffer companions.
unfoldable pub entity_guids : Endpoint → List String
entity_guids e = e.guid ∷ e.buffer_companion_guids

unfoldable pub is_datasharing_split : Verdict → Bool
is_datasharing_split v =
    has_text "shm-ipc-namespace-split" v.warnings
    && has_text "datasharing-qos-enabled-both" v.reasons
