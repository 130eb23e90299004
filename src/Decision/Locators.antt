-- ===== src/Decision/Locators.antt =====
-- decision.cpp: what the locators that an endpoint announces allow.
pub mod Pick
use fastdds_transport_viz.Prelude.{
  String, Bool, true, false, ◌||◌, ◌&&◌, List, [], ◌∷◌, ◌++◌, Option, none, some, ℕ, any, find,
  str_eq, if◌then◌else◌, ◌==◌, keep_if, map,
}
use fastdds_transport_viz.Model.Kinds.{LocatorKind, Transport, kind_eq}
use fastdds_transport_viz.Model.Endpoints.{Locator, Endpoint}

unfoldable pub has_kind : Endpoint → LocatorKind → Bool
has_kind e kind =
    any (λ l. kind_eq l.kind kind) e.unicast || any (λ l. kind_eq l.kind kind) e.multicast

-- The loops over `{&e.unicast, &e.multicast}`: the unicast list first.
unfoldable pub find_locator : Endpoint → LocatorKind → Option Locator
find_locator e kind = find (λ l. kind_eq l.kind kind) (e.unicast ++ e.multicast)

abbrev pub is_ip : LocatorKind → Bool
is_ip kind =
    kind_eq kind LocatorKind.udpv4
    || kind_eq kind LocatorKind.udpv6
    || kind_eq kind LocatorKind.tcpv4
    || kind_eq kind LocatorKind.tcpv6

-- A set of the source is read by membership alone, so a repeated address does no harm.
unfoldable pub ip_addresses : Endpoint → List String
ip_addresses e = map (λ l. l.address) (keep_if (λ l. is_ip l.kind) e.unicast)

unfoldable pub transport_for : LocatorKind → Transport
transport_for LocatorKind.udpv4 = Transport.udpv4
transport_for LocatorKind.udpv6 = Transport.udpv6
transport_for LocatorKind.tcpv4 = Transport.tcpv4
transport_for LocatorKind.tcpv6 = Transport.tcpv6
transport_for LocatorKind.shm = Transport.shm
transport_for LocatorKind.invalid = Transport.no_transport

unfoldable pub reason_for : LocatorKind → String
reason_for LocatorKind.udpv4 = "common-udpv4-locator"
reason_for LocatorKind.udpv6 = "common-udpv6-locator"
reason_for LocatorKind.tcpv4 = "common-tcpv4-locator"
reason_for LocatorKind.tcpv6 = "common-tcpv6-locator"
reason_for LocatorKind.shm = "no-common-transport"
reason_for LocatorKind.invalid = "no-common-transport"

-- The locator is one of the network kinds, and the writer speaks its kind.
unfoldable pub usable : Endpoint → Locator → Bool
usable writer l = is_ip l.kind && has_kind writer l.kind

-- The inner loop of `pick_network_locator`, over one list.
unfoldable pub pick_from : Endpoint → Bool → List Locator → Option (Locator × Bool)
pick_from writer multicast [] = none
pick_from writer multicast (l ∷ ls) =
    if usable writer l then some (l, multicast) else pick_from writer multicast ls

-- `some (out, multicast)` where the source returns true and sets its two output arguments.
unfoldable pub pick_network_locator : Endpoint → Endpoint → Option (Locator × Bool)
pick_network_locator writer reader = elim (pick_from writer false reader.unicast) [
  | some found ↦ some found
  | none ↦ pick_from writer true reader.multicast
]

unfoldable pub domains_intersect : List ℕ → List ℕ → Bool
domains_intersect a b = any (λ x. any (λ y. y == x) b) a

-- `count(a) > 0` for a set of texts, and `std::find` for a code.
abbrev pub has_text : String → List String → Bool
has_text c = any (λ d. str_eq d c)
