-- ===== src/Examples/Actions.antt =====
-- Witnesses and tests for the members of actions.
use fastdds_transport_viz.Prelude.{String, true, List, [], ◌∷◌, In, inl, inr, ◌≡◌, ◌↔◌, refl}
use fastdds_transport_viz.Prelude.OrderedMap.{insert, lookup, replace, place, has_key}
use fastdds_transport_viz.Model.Kinds.{TopicKind, GroupDirection}
use fastdds_transport_viz.Model.Pairs.{TopicSummary}
use fastdds_transport_viz.Summaries.Classes.{
  add_candidates, write_at, write_all, write_actions, classify_topics, member_label,
}
use fastdds_transport_viz.Summaries.Classes.Members.{classify_topics-members}
use fastdds_transport_viz.Names.Actions.{
  ActionMember, new_action_member, split_first, split_last, action_type_from, find_member,
  parse_action_member,
}
use fastdds_transport_viz.Names.Topics.{demangle_topic}
use fastdds_transport_viz.Names.Actions.Members.{IsMember, parse_action_member_lem}

abbrev goal_topic : String
goal_topic = "rq/fibonacci/_action/send_goalRequest"

abbrev goal_type : String
goal_type = "example_interfaces::action::dds_::Fibonacci_SendGoal_Request_"

abbrev goal_member : ActionMember
goal_member = record {
  matched = true;
  action = "/fibonacci";
  suffix = "send_goal";
  type_ok = true;
  action_type = "example_interfaces/action/Fibonacci";
}

parse_action_member_lem_example :
    ((parse_action_member goal_topic goal_type ≡ goal_member) × (goal_member.matched ≡ true))
    ↔ IsMember goal_topic goal_type goal_member
parse_action_member_lem_example = parse_action_member_lem goal_topic goal_type goal_member

goal_is_member : parse_action_member goal_topic goal_type ≡ goal_member
unfolding parse_action_member demangle_topic split_last find_member action_type_from split_first
goal_is_member = refl

unnamed_action : parse_action_member "rt/_action/status" "" ≡ new_action_member
unfolding parse_action_member demangle_topic split_last find_member action_type_from split_first
unnamed_action = refl

abbrev topic_of : String → String → TopicSummary
topic_of name type = record {
  dds_topic = name;
  display_topic = name;
  display_type = type;
  dds_type = type;
  is_ros_topic = true;
  kind = TopicKind.topic;
  group = "";
  direction = GroupDirection.no_direction;
  writers = [];
  readers = [];
  pairs = [];
  unmatched_reasons = [];
}

abbrev goal_and_status : List TopicSummary
goal_and_status =
    topic_of goal_topic goal_type
    ∷ topic_of "rt/fibonacci/_action/status" "action_msgs::msg::dds_::GoalStatusArray_"
    ∷ []

abbrev classified_status : TopicSummary
classified_status =
    record (topic_of "rt/fibonacci/_action/status" "action_msgs::msg::dds_::GoalStatusArray_") {
      kind = TopicKind.action;
      group = "/fibonacci";
      direction = GroupDirection.to_client;
    }

is_classified : In classified_status (classify_topics goal_and_status)
unfolding classify_topics parse_action_member demangle_topic split_last find_member action_type_from
    split_first add_candidates write_at write_all write_actions insert lookup replace place has_key
is_classified = inr (inl refl)

abbrev status_member : ActionMember
status_member = parse_action_member classified_status.dds_topic classified_status.dds_type

classify_topics-members_example :
    (status_member.matched ≡ true)
    × (status_member.action ≡ "/fibonacci")
    × (status_member.type_ok ≡ true)
classify_topics-members_example =
    classify_topics-members goal_and_status classified_status is_classified refl

status_label : member_label classified_status ≡ "status"
unfolding member_label parse_action_member demangle_topic split_last find_member split_first
status_label = refl
