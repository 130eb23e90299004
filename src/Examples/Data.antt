-- ===== src/Examples/Data.antt =====
-- A talker and a listener of one host, and what is measured between them.
use fastdds_transport_viz.Prelude.{String, Bool, true, false, [], ◌∷◌}
use fastdds_transport_viz.Model.Kinds.{LocatorKind, DataSharingKind, ShmVisibility}
use fastdds_transport_viz.Model.Endpoints.{Locator, EndpointQos, Endpoint, infinity}
use fastdds_transport_viz.Model.Stats.{TrafficSample, StatsData, new_stats}

-- No pattern matches: names are equal or they are not.
abbrev pub no_patterns : String → String → Bool
no_patterns a b = false

abbrev pub shm_locator : Locator
shm_locator = record { kind = LocatorKind.shm; address = ""; port = 7413 }

abbrev udp_locator : Locator
udp_locator = record { kind = LocatorKind.udpv4; address = "192.168.1.10"; port = 7411 }

abbrev default_qos : EndpointQos
default_qos = record {
  reliability = "RELIABLE";
  durability = "VOLATILE";
  data_sharing = DataSharingKind.off;
  data_sharing_domains = [];
  deadline_s = infinity;
  liveliness = "AUTOMATIC";
  liveliness_lease_s = infinity;
  ownership = "SHARED";
  partitions = [];
}

abbrev pub talker : Endpoint
talker = record {
  is_writer = true;
  guid = "01.0f.00.00.00.00.00.01.00.00.00.00|0.0.1.3";
  guid_bytes = 1 ∷ 15 ∷ 0 ∷ 0 ∷ 0 ∷ 0 ∷ 0 ∷ 1 ∷ 0 ∷ 0 ∷ 0 ∷ 0 ∷ 0 ∷ 0 ∷ 1 ∷ 3 ∷ [];
  host_id = 0 ∷ 7 ∷ [];
  participant_guid_prefix = "01.0f.00.00.00.00.00.01.00.00.00.00";
  dds_topic = "rt/chatter";
  dds_type = "std_msgs::msg::dds_::String_";
  ros_topic = "/chatter";
  ros_type = "std_msgs/msg/String";
  type_hash = "";
  type_information_hash = "";
  type_information_minimal_hash = "";
  node_name = "/talker";
  unicast = udp_locator ∷ shm_locator ∷ [];
  multicast = [];
  qos = default_qos;
  same_host_locators_filtered = false;
  participant_shm_ports = [];
  participant_shm_visibility = ShmVisibility.unprobed;
  datasharing_segment_visibility = ShmVisibility.unprobed;
  buffer_parent_guid = "";
  buffer_companion_guids = [];
}

abbrev pub listener : Endpoint
listener = record talker {
  is_writer = false;
  guid = "01.0f.00.00.00.00.00.02.00.00.00.00|0.0.1.4";
  guid_bytes = 1 ∷ 15 ∷ 0 ∷ 0 ∷ 0 ∷ 0 ∷ 0 ∷ 2 ∷ 0 ∷ 0 ∷ 0 ∷ 0 ∷ 0 ∷ 0 ∷ 1 ∷ 4 ∷ [];
  participant_guid_prefix = "01.0f.00.00.00.00.00.02.00.00.00.00";
  node_name = "/listener";
  unicast = udp_locator ∷ record shm_locator { port = 7415 } ∷ [];
}

-- The same on another host, without shared memory there.
abbrev pub remote_listener : Endpoint
remote_listener = record listener { host_id = 0 ∷ 8 ∷ []; unicast = udp_locator ∷ [] }

-- A listener whose participant has the talker's port number: another IPC namespace.
abbrev pub split_listener : Endpoint
split_listener = record listener { unicast = udp_locator ∷ shm_locator ∷ [] }

abbrev pub best_effort_talker : Endpoint
best_effort_talker = record talker { qos = record default_qos { reliability = "BEST_EFFORT" } }

-- Both allow data-sharing.
abbrev sharing_qos : EndpointQos
sharing_qos = record default_qos {
  data_sharing = DataSharingKind.auto;
  data_sharing_domains = 5 ∷ [];
}

abbrev pub sharing_talker : Endpoint
sharing_talker = record talker { qos = sharing_qos }

abbrev pub sharing_listener : Endpoint
sharing_listener = record listener { qos = sharing_qos }

-- Seven packets to the listener's shared-memory port, the first two before the observation.
abbrev pub shm_traffic : TrafficSample
shm_traffic = record {
  src_participant_prefix = talker.participant_guid_prefix;
  dst = record shm_locator { port = 7415 };
  packets = 7;
  bytes = 700;
  packets_first = 2;
  bytes_first = 200;
  samples = 4;
  reporter_participant_prefix = "";
}

abbrev pub measured_stats : StatsData
measured_stats = record new_stats {
  enabled = true;
  traffic = shm_traffic ∷ [];
  delivered = ((talker.guid, listener.guid), 3) ∷ [];
  statistics_writers = (talker.participant_guid_prefix, "_fastdds_statistics_rtps_sent") ∷ [];
  participants_with_stats = talker.participant_guid_prefix ∷ [];
  local_addresses = "192.168.1.10" ∷ [];
  writer_instance_limit = false;
  samples = 1;
}
