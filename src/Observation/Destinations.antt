-- ===== src/Observation/Destinations.antt =====
-- decision.cpp, `reader_destinations` and `measures_a_pair`: the traffic that may belong to a pair.
-- The two sets are lists that are read by membership alone.
pub mod Measured
use fastdds_transport_viz.Prelude.{
  ℕ, String, Bool, false, ◌||◌, ◌&&◌, List, [], ◌∷◌, ◌++◌, any, leb, map, str_eq, if◌then◌else◌,
  ◌==◌,
}
use fastdds_transport_viz.Model.Kinds.{LocatorKind, kind_eq}
use fastdds_transport_viz.Model.Endpoints.{Locator, Endpoint}
use fastdds_transport_viz.Model.Stats.{TrafficSample}
use fastdds_transport_viz.Decision.Locators.{has_text}

pub record ReaderDestinations : Type 0 where
  pub unicast_ports : List (LocatorKind × ℕ)
  pub multicast_locators : List (LocatorKind × String × ℕ)

-- `unicast_ports.count({dst.kind, dst.port}) > 0`
pub has_port : Locator → List (LocatorKind × ℕ) → Bool
has_port dst = any (λ p. kind_eq p.0 dst.kind && p.1 == dst.port)

-- `multicast_locators.count({dst.kind, dst.address, dst.port}) > 0`
pub has_group : Locator → List (LocatorKind × String × ℕ) → Bool
has_group dst = any (λ p. kind_eq p.0 dst.kind && str_eq p.1 dst.address && p.2 == dst.port)

abbrev pub skipped : List String → Endpoint → Bool
skipped own_prefixes e = e.is_writer || has_text e.participant_guid_prefix own_prefixes

-- One round over a reader that is not the tool's own.
abbrev pub add_reader : Endpoint → ReaderDestinations → ReaderDestinations
add_reader e out = record {
  unicast_ports = out.unicast_ports ++ map (λ l. (l.kind, l.port)) e.unicast;
  multicast_locators = out.multicast_locators ++ map (λ l. (l.kind, l.address, l.port)) e.multicast;
}

pub add_readers : List String → List Endpoint → ReaderDestinations → ReaderDestinations
add_readers own_prefixes [] out = out
add_readers own_prefixes (e ∷ es) out =
    add_readers own_prefixes es (if skipped own_prefixes e then out else add_reader e out)

pub reader_destinations : List Endpoint → List String → ReaderDestinations
reader_destinations endpoints own_prefixes =
    add_readers own_prefixes endpoints (record { unicast_ports = []; multicast_locators = [] })

pub measures_a_pair : TrafficSample → ReaderDestinations → Bool
measures_a_pair traffic readers =
    if leb traffic.packets traffic.packets_first
    then false
    else has_port traffic.dst readers.unicast_ports
      || has_group traffic.dst readers.multicast_locators
