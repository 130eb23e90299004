-- ===== src/Summaries/Classes.antt =====
-- decision.cpp, `classify_topics` and `member_label`: the topics of services and of actions.
pub mod Members
use fastdds_transport_viz.Prelude.{
  ℕ, zero, suc, String, Bool, true, false, ◌||◌, ◌&&◌, not, List, [], ◌∷◌, ◌++◌, Option, none, some,
  map, any, str_eq, if◌then◌else◌, ◌==◌,
}
use fastdds_transport_viz.Prelude.Text.{str_is_empty}
use fastdds_transport_viz.Prelude.OrderedMap.{lookup}
use fastdds_transport_viz.Prelude.OrderedMap.Updates.{update_at}
use fastdds_transport_viz.Prelude.Keys.{text_key}
use fastdds_transport_viz.Model.Kinds.{TopicKind, GroupDirection}
use fastdds_transport_viz.Model.Pairs.{TopicSummary}
use fastdds_transport_viz.Names.Topics.{RosEntityKind, RosName, demangle_topic}
use fastdds_transport_viz.Names.Actions.{ActionMember, parse_action_member}

-- The three maps, each by the name of an action. A set of texts is a list without repetitions.
pub record Candidates : Type 0 where
  pub candidates : List (String × List ℕ)
  pub every_member_type_ok : List (String × Bool)
  pub named_types : List (String × List String)

abbrev pub new_candidates : Candidates
new_candidates = record { candidates = []; every_member_type_ok = []; named_types = [] }

abbrev pub classed : TopicKind → String → GroupDirection → TopicSummary → TopicSummary
classed kind group direction t = record t { kind = kind; group = group; direction = direction }

-- The `switch` over the kind of the demangled name.
abbrev pub class_by_name : RosEntityKind → String → TopicSummary → TopicSummary
class_by_name RosEntityKind.topic name t = classed TopicKind.topic "" GroupDirection.no_direction t
class_by_name RosEntityKind.service_request name t =
    classed TopicKind.service name GroupDirection.to_server t
class_by_name RosEntityKind.service_reply name t =
    classed TopicKind.service name GroupDirection.to_client t
class_by_name RosEntityKind.not_ros name t =
    classed TopicKind.other "" GroupDirection.no_direction t

abbrev pub name_class : TopicSummary → TopicSummary
name_class t = let ros = demangle_topic t.dds_topic in class_by_name ros.kind ros.name t

abbrev or_nothing {ℓ} : {A : Type ℓ} → Option (List A) → List A
or_nothing none = []
or_nothing (some xs) = xs

abbrev or_true : Option Bool → Bool
or_true none = true
or_true (some b) = b

-- `insert` into a set.
abbrev pub add_name : String → List String → List String
add_name s names = if any (str_eq s) names then names else names ++ s ∷ []

abbrev pub add_named : ActionMember → List (String × List String) → List (String × List String)
add_named m named =
    if str_is_empty m.action_type
    then named
    else update_at m.action (λ o. add_name m.action_type (or_nothing o)) named

abbrev pub add_candidate : ℕ → ActionMember → Candidates → Candidates
add_candidate i m c = if not m.matched then c else record {
  candidates = update_at m.action (λ o. or_nothing o ++ i ∷ []) c.candidates;
  every_member_type_ok = update_at m.action (λ o. or_true o && m.type_ok) c.every_member_type_ok;
  named_types = add_named m c.named_types;
}

unfoldable pub add_candidates : ℕ → List TopicSummary → Candidates → Candidates
add_candidates i [] c = c
add_candidates i (t ∷ ts) c =
    add_candidates (suc i) ts (add_candidate i (parse_action_member t.dds_topic t.dds_type) c)

-- `topics[i]` is written; nothing out of range.
unfoldable pub write_at : ℕ → (TopicSummary → TopicSummary) → List TopicSummary → List TopicSummary
write_at i change [] = []
write_at zero change (t ∷ ts) = change t ∷ ts
write_at (suc i) change (t ∷ ts) = t ∷ write_at i change ts

abbrev is_request : RosEntityKind → Bool
is_request RosEntityKind.service_request = true
is_request _ = false

abbrev pub action_class : String → TopicSummary → TopicSummary
action_class action t =
    let request = is_request (demangle_topic t.dds_topic).kind in
    classed TopicKind.action action
      (if request then GroupDirection.to_server else GroupDirection.to_client) t

unfoldable pub write_all : String → List ℕ → List TopicSummary → List TopicSummary
write_all action [] topics = topics
write_all action (i ∷ is) topics = write_all action is (write_at i (action_class action) topics)

abbrev has_one : List String → Bool
has_one (_ ∷ []) = true
has_one _ = false

-- Every member has to carry its own type, and they have to name one action type.
abbrev pub is_action : Candidates → String → Bool
is_action c action =
    or_true (lookup action c.every_member_type_ok)
    && has_one (or_nothing (lookup action c.named_types))

unfoldable pub write_actions :
    Candidates → List (String × List ℕ) → List TopicSummary → List TopicSummary
write_actions c [] topics = topics
write_actions c ((action, is) ∷ rest) topics =
    write_actions c rest (if is_action c action then write_all action is topics else topics)

unfoldable pub classify_topics : List TopicSummary → List TopicSummary
classify_topics topics =
    let c = add_candidates 0 topics new_candidates in
    write_actions c c.candidates (map name_class topics)

abbrev request_or_reply : GroupDirection → String
request_or_reply GroupDirection.to_server = "request"
request_or_reply _ = "reply"

abbrev label_of : TopicKind → GroupDirection → ActionMember → String
label_of TopicKind.action towards m = if m.matched then m.suffix else request_or_reply towards
label_of TopicKind.service towards m = request_or_reply towards
label_of _ towards m = ""

unfoldable pub member_label : TopicSummary → String
member_label t = label_of t.kind t.direction (parse_action_member t.dds_topic t.dds_type)
