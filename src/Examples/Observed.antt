-- ===== src/Examples/Observed.antt =====
-- Observations, at concrete data.
use fastdds_transport_viz.Prelude.{
  ◌≡◌, ◌↔◌, ◌<◌, inl, refl, true, false, List, [], ◌∷◌, none, some, if◌then◌else◌, In,
}
use fastdds_transport_viz.Model.Endpoints.{Endpoint}
use fastdds_transport_viz.Observation.Completeness.{Gid, bytes_of, discovery_completeness}
use fastdds_transport_viz.Observation.Completeness.Judgement.{
  any_live, all_seen, discovery_completeness-complete,
}
use fastdds_transport_viz.Observation.Measurable.{count_measurable_pairs}
use fastdds_transport_viz.Observation.Measurable.Reference.{pairs_of, listed}
use fastdds_transport_viz.Observation.Measurable.Equivalence.{count_measurable_pairs-pairs_of}
use fastdds_transport_viz.Observation.Destinations.{reader_destinations, measures_a_pair}
use fastdds_transport_viz.Observation.Destinations.Measured.{
  IsForeignReader, Announces, measures_a_pair-reader_destinations,
}
use fastdds_transport_viz.Observation.Servers.{
  Participant, is_server, is_client, server_of, attribute_discovery_servers,
}
use fastdds_transport_viz.Observation.Servers.Attribution.{
  IsServedBy, attribute_discovery_servers-IsServedBy,
}
use fastdds_transport_viz.Examples.Data.{talker, listener, shm_traffic}

abbrev announced : List (Gid × List Gid)
announced = (1 ∷ [], talker.guid_bytes ∷ listener.guid_bytes ∷ []) ∷ []

discovery_completeness-complete_example :
    (discovery_completeness announced ((1 ∷ []) ∷ []) (talker ∷ [])).complete ≡ (
      if any_live announced ((1 ∷ []) ∷ [])
      then some (all_seen announced ((1 ∷ []) ∷ []) (bytes_of (talker ∷ [])))
      else none)
discovery_completeness-complete_example =
    discovery_completeness-complete announced ((1 ∷ []) ∷ []) (talker ∷ [])

abbrev client : Participant
client = record {
  guid_prefix = "c";
  host_id = 0 ∷ 7 ∷ [];
  own = false;
  discovery_protocol = "CLIENT";
  name = "talker";
  discovery_server = none;
}

abbrev server : Participant
server = record client {
  guid_prefix = "s";
  discovery_protocol = "SERVER";
  name = "DiscoveryServerAuto";
}

abbrev served_client : Participant
served_client = record client { discovery_server = some "s" }

served : In served_client (attribute_discovery_servers (client ∷ server ∷ []) true)
unfolding attribute_discovery_servers server_of is_server is_client
served = inl refl

attribute_discovery_servers_example :
    (served_client.discovery_server ≡ some "s")
    ↔ IsServedBy true (client ∷ server ∷ []) served_client "s"
attribute_discovery_servers_example =
    attribute_discovery_servers-IsServedBy (client ∷ server ∷ []) true served_client "s" served

count_measurable_pairs_example :
    count_measurable_pairs (talker ∷ listener ∷ []) []
    ≡ pairs_of (listed [] (talker ∷ listener ∷ [])) (listed [] (talker ∷ listener ∷ []))
count_measurable_pairs_example = count_measurable_pairs-pairs_of (talker ∷ listener ∷ []) []

measures_a_pair_example :
    (measures_a_pair shm_traffic (reader_destinations (talker ∷ listener ∷ []) []) ≡ true) ↔ (
      (shm_traffic.packets_first < shm_traffic.packets)
      × ((e : Endpoint) × In e (talker ∷ listener ∷ [])
          × IsForeignReader [] e
          × Announces e shm_traffic.dst))
measures_a_pair_example =
    measures_a_pair-reader_destinations shm_traffic (talker ∷ listener ∷ []) []
