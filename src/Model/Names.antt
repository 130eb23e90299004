-- ===== src/Model/Names.antt =====
-- model.cpp: the names of the enumerators in the documents.
use fastdds_transport_viz.Prelude.{String}
use fastdds_transport_viz.Model.Kinds.{
  LocatorKind, Transport, Confidence, TopicKind, GroupDirection, DataSharingKind, KeyMode,
  ShmVisibility, PortLock,
}

abbrev pub locator_kind_to_string : LocatorKind → String
locator_kind_to_string LocatorKind.udpv4 = "UDPv4"
locator_kind_to_string LocatorKind.udpv6 = "UDPv6"
locator_kind_to_string LocatorKind.tcpv4 = "TCPv4"
locator_kind_to_string LocatorKind.tcpv6 = "TCPv6"
locator_kind_to_string LocatorKind.shm = "SHM"
locator_kind_to_string LocatorKind.invalid = "INVALID"

abbrev pub transport_to_string : Transport → String
transport_to_string Transport.udpv4 = "UDPv4"
transport_to_string Transport.udpv6 = "UDPv6"
transport_to_string Transport.tcpv4 = "TCPv4"
transport_to_string Transport.tcpv6 = "TCPv6"
transport_to_string Transport.shm = "SHM"
transport_to_string Transport.data_sharing = "DATA_SHARING"
transport_to_string Transport.no_transport = "NONE"

abbrev pub confidence_to_string : Confidence → String
confidence_to_string Confidence.certain = "certain"
confidence_to_string Confidence.likely = "likely"

abbrev pub topic_kind_to_string : TopicKind → String
topic_kind_to_string TopicKind.topic = "topic"
topic_kind_to_string TopicKind.service = "service"
topic_kind_to_string TopicKind.action = "action"
topic_kind_to_string TopicKind.other = "other"

abbrev pub direction_to_string : GroupDirection → String
direction_to_string GroupDirection.to_server = "to_server"
direction_to_string GroupDirection.to_client = "to_client"
direction_to_string GroupDirection.no_direction = ""

abbrev pub data_sharing_to_string : DataSharingKind → String
data_sharing_to_string DataSharingKind.off = "OFF"
data_sharing_to_string DataSharingKind.on = "ON"
data_sharing_to_string DataSharingKind.auto = "AUTO"
data_sharing_to_string DataSharingKind.unknown = "UNKNOWN"

abbrev pub key_mode_to_string : KeyMode → String
key_mode_to_string KeyMode.node = "node"
key_mode_to_string KeyMode.guid = "guid"

abbrev pub visibility_to_string : ShmVisibility → String
visibility_to_string ShmVisibility.visible = "visible"
visibility_to_string ShmVisibility.not_visible = "not-visible"
visibility_to_string ShmVisibility.unprobed = "unprobed"

abbrev pub port_lock_to_string : PortLock → String
port_lock_to_string PortLock.held = "held"
port_lock_to_string PortLock.own = "own"
port_lock_to_string PortLock.absent = "absent"
port_lock_to_string PortLock.stale = "stale"
port_lock_to_string PortLock.unknown = "unknown"
port_lock_to_string PortLock.unprobed = "unprobed"
