-- ===== src/Documents/Enumerations.antt =====
-- parse_json.cpp: the readers of the enumerations, which invert the functions of model.cpp. A
-- `ParseError` is thrown with a message.
pub mod Inverse
use fastdds_transport_viz.Prelude.{String, Bool, true, false, str_eq, if◌then◌else◌}
use fastdds_transport_viz.Prelude.Text.{text_append, str_is_empty}
use fastdds_transport_viz.Model.Kinds.{
  LocatorKind, Transport, Confidence, TopicKind, GroupDirection, DataSharingKind,
}

pub data Parsed (A : Type 0) : Type 0 where
  parsed : A → Parsed A
  parse_error : String → Parsed A

abbrev pub unknown_value : String → String → String
unknown_value what s =
    text_append "unknown " (text_append what (text_append " '" (text_append s "'")))

pub locator_kind : String → Parsed LocatorKind
locator_kind s =
    if str_eq s "UDPv4"
    then parsed LocatorKind.udpv4
    else if str_eq s "UDPv6"
    then parsed LocatorKind.udpv6
    else if str_eq s "TCPv4"
    then parsed LocatorKind.tcpv4
    else if str_eq s "TCPv6"
    then parsed LocatorKind.tcpv6
    else if str_eq s "SHM"
    then parsed LocatorKind.shm
    else if str_eq s "INVALID"
    then parsed LocatorKind.invalid
    else parse_error (unknown_value "locator kind" s)

pub transport : String → Parsed Transport
transport s =
    if str_eq s "UDPv4"
    then parsed Transport.udpv4
    else if str_eq s "UDPv6"
    then parsed Transport.udpv6
    else if str_eq s "TCPv4"
    then parsed Transport.tcpv4
    else if str_eq s "TCPv6"
    then parsed Transport.tcpv6
    else if str_eq s "SHM"
    then parsed Transport.shm
    else if str_eq s "DATA_SHARING"
    then parsed Transport.data_sharing
    else if str_eq s "NONE"
    then parsed Transport.no_transport
    else parse_error (unknown_value "transport" s)

pub confidence : String → Parsed Confidence
confidence s =
    if str_eq s "certain"
    then parsed Confidence.certain
    else if str_eq s "likely"
    then parsed Confidence.likely
    else parse_error (unknown_value "confidence" s)

-- The value, and the flag that an unknown text clears.
pub topic_kind : String → (known : Bool) → TopicKind × Bool
topic_kind s known =
    if str_eq s "topic"
    then (TopicKind.topic, known)
    else if str_eq s "service"
    then (TopicKind.service, known)
    else if str_eq s "action"
    then (TopicKind.action, known)
    else if str_eq s "other"
    then (TopicKind.other, known)
    else (TopicKind.other, false)

pub group_direction : String → (known : Bool) → GroupDirection × Bool
group_direction s known =
    if str_is_empty s
    then (GroupDirection.no_direction, known)
    else if str_eq s "to_server"
    then (GroupDirection.to_server, known)
    else if str_eq s "to_client"
    then (GroupDirection.to_client, known)
    else (GroupDirection.no_direction, false)

pub data_sharing : String → DataSharingKind
data_sharing s =
    if str_eq s "OFF"
    then DataSharingKind.off
    else if str_eq s "ON"
    then DataSharingKind.on
    else if str_eq s "AUTO"
    then DataSharingKind.auto
    else DataSharingKind.unknown
