-- ===== src/Names/Actions.antt =====
-- ros_names.cpp, `parse_action_member`: the five topics that rcl_action creates for an action.
pub mod Types
pub mod Members
use fastdds_transport_viz.Prelude.{
  String, Bool, true, false, ◌&&◌, ◌||◌, not, List, [], ◌∷◌, Option, none, some, str_eq,
  if◌then◌else◌,
}
use fastdds_transport_viz.Prelude.Text.{
  text_append, str_is_empty, strip_prefix, strip_suffix, is_some,
}
use fastdds_transport_viz.Names.Topics.{RosEntityKind, RosName, demangle_topic}

pub record ActionMember : Type 0 where
  pub matched : Bool
  pub action : String
  pub suffix : String
  pub type_ok : Bool
  pub action_type : String

abbrev pub new_action_member : ActionMember
new_action_member = record {
  matched = false;
  action = "";
  suffix = "";
  type_ok = false;
  action_type = "";
}

-- A position in a text is what precedes it and what follows the separator there.
abbrev pub extend : Option (String × String) → (String → String) → Option (String × String)
extend none put = none
extend (some (before, after)) put = some (put before, after)

abbrev at_start : Option String → Option (String × String) → Option (String × String)
at_start none later = later
at_start (some rest) later = some ("", rest)

abbrev first_some : Option (String × String) → Option (String × String) → Option (String × String)
first_some none other = other
first_some (some parts) other = some parts

-- `s.find(separator)`
unfoldable pub split_first : (separator : String) → String → Option (String × String)
split_first separator String.[] = at_start (strip_prefix separator "") none
split_first separator (String.◌∷◌ c s) =
    at_start (strip_prefix separator (String.◌∷◌ c s))
      (extend (split_first separator s) (String.◌∷◌ c))

-- `s.rfind(separator)`
unfoldable pub split_last : (separator : String) → String → Option (String × String)
split_last separator String.[] = at_start (strip_prefix separator "") none
split_last separator (String.◌∷◌ c s) =
    first_some (extend (split_last separator s) (String.◌∷◌ c))
      (at_start (strip_prefix separator (String.◌∷◌ c s)) none)

abbrev pub contains : (separator : String) → String → Bool
contains separator s = is_some (split_first separator s)

abbrev pub action_separator : String
action_separator = "/_action/"

abbrev type_behind : String → Option String → String
type_behind pkg none = ""
type_behind pkg (some name) =
    if str_is_empty name then "" else text_append pkg (text_append "/action/" name)

abbrev pub type_around : String → Option (String × String) → String
type_around tail none = ""
type_around tail (some (pkg, rest)) =
    if str_is_empty pkg || contains ":" pkg then "" else type_behind pkg (strip_suffix tail rest)

unfoldable pub action_type_from : (dds_type tail : String) → String
action_type_from dds_type tail = type_around tail (split_first "::action::dds_::" dds_type)

pub record MemberSpec : Type 0 where
  pub suffix : String
  pub kind : RosEntityKind
  pub type : String
  pub names_action : Bool

abbrev spec : String → RosEntityKind → String → Bool → MemberSpec
spec suffix kind type names_action = record {
  suffix = suffix;
  kind = kind;
  type = type;
  names_action = names_action;
}

abbrev pub members : List MemberSpec
members =
    spec "send_goal" RosEntityKind.service_request "_SendGoal_Request_" true
    ∷ spec "send_goal" RosEntityKind.service_reply "_SendGoal_Response_" true
    ∷ spec "get_result" RosEntityKind.service_request "_GetResult_Request_" true
    ∷ spec "get_result" RosEntityKind.service_reply "_GetResult_Response_" true
    ∷ spec "feedback" RosEntityKind.topic "_FeedbackMessage_" true
    ∷ spec "cancel_goal" RosEntityKind.service_request "action_msgs::srv::dds_::CancelGoal_Request_"
        false
    ∷ spec "cancel_goal" RosEntityKind.service_reply "action_msgs::srv::dds_::CancelGoal_Response_"
        false
    ∷ spec "status" RosEntityKind.topic "action_msgs::msg::dds_::GoalStatusArray_" false
    ∷ []

abbrev pub entity_kind_eq : RosEntityKind → RosEntityKind → Bool
entity_kind_eq RosEntityKind.not_ros RosEntityKind.not_ros = true
entity_kind_eq RosEntityKind.topic RosEntityKind.topic = true
entity_kind_eq RosEntityKind.service_request RosEntityKind.service_request = true
entity_kind_eq RosEntityKind.service_reply RosEntityKind.service_reply = true
entity_kind_eq _ _ = false

abbrev pub is_spec_of : RosEntityKind → String → MemberSpec → Bool
is_spec_of kind suffix m = entity_kind_eq m.kind kind && str_eq suffix m.suffix

-- The member that a specification describes.
abbrev pub member_of : (dds_type action suffix : String) → MemberSpec → ActionMember
member_of dds_type action suffix m =
    let action_type = if m.names_action then action_type_from dds_type m.type else "" in
    record {
      matched = true;
      action = action;
      suffix = suffix;
      type_ok = if m.names_action then not (str_is_empty action_type) else str_eq dds_type m.type;
      action_type = action_type;
    }

unfoldable pub find_member :
    (dds_type action : String) → RosEntityKind → (suffix : String) → List MemberSpec → ActionMember
find_member dds_type action kind suffix [] = new_action_member
find_member dds_type action kind suffix (m ∷ ms) =
    if is_spec_of kind suffix m
    then member_of dds_type action suffix m
    else find_member dds_type action kind suffix ms

-- `sep == 0` is an empty action.
abbrev pub member_at : (dds_type : String) → RosEntityKind → Option (String × String) → ActionMember
member_at dds_type kind none = new_action_member
member_at dds_type kind (some (action, suffix)) =
    if str_is_empty action || contains "/" suffix
    then new_action_member
    else find_member dds_type action kind suffix members

abbrev pub member_named : (dds_type : String) → RosName → ActionMember
member_named dds_type ros =
    if entity_kind_eq ros.kind RosEntityKind.not_ros
    then new_action_member
    else member_at dds_type ros.kind (split_last action_separator ros.name)

unfoldable pub parse_action_member : (dds_topic dds_type : String) → ActionMember
parse_action_member dds_topic dds_type = member_named dds_type (demangle_topic dds_topic)
