-- ===== src/Names/Topics.antt =====
-- ros_names.cpp, `demangle_topic`.
pub mod Mangling
use fastdds_transport_viz.Prelude.{String, Option, none, some}
use fastdds_transport_viz.Prelude.Text.{text_append, strip_prefix, strip_suffix}

pub data RosEntityKind : Type 0 where
  not_ros topic service_request service_reply : RosEntityKind

pub record RosName : Type 0 where
  pub kind : RosEntityKind
  pub name : String

abbrev pub no_ros_name : RosName
no_ros_name = record { kind = RosEntityKind.not_ros; name = "" }

abbrev pub named : RosEntityKind → String → RosName
named kind rest = record { kind = kind; name = text_append "/" rest }

-- The prefix and the suffix of a service topic cannot overlap, since no suffix holds a "/": the
-- suffix is looked for behind the prefix.
abbrev named_service : RosEntityKind → Option String → RosName
named_service kind none = no_ros_name
named_service kind (some rest) = named kind rest

abbrev reply_name : Option String → RosName
reply_name none = no_ros_name
reply_name (some rest) = named_service RosEntityKind.service_reply (strip_suffix "Reply" rest)

abbrev request_name : Option String → Option String → RosName
request_name none other = reply_name other
request_name (some rest) other =
    named_service RosEntityKind.service_request (strip_suffix "Request" rest)

abbrev topic_name : Option String → RosName → RosName
topic_name none other = other
topic_name (some rest) other = named RosEntityKind.topic rest

unfoldable pub demangle_topic : String → RosName
demangle_topic dds_topic =
    topic_name (strip_prefix "rt/" dds_topic)
      (request_name (strip_prefix "rq/" dds_topic) (strip_prefix "rr/" dds_topic))
