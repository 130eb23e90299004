-- ===== src/Names/Topics/Mangling.antt =====
-- `demangle_topic` undoes the mangling of the rmw, and recognises nothing else.
use fastdds_transport_viz.Prelude.{String, ◌≡◌, ◌⊎◌, inl, inr, refl, ap, ◌∙◌, Option-cases}
use fastdds_transport_viz.Prelude.Text.{
  text_append, strip_prefix, strip_suffix, strip_suffix-append, strip_prefix_sound,
  strip_suffix_sound,
}
use fastdds_transport_viz.Names.Topics.{RosEntityKind, no_ros_name, named, demangle_topic}

-- The DDS name that the rmw gives to the topic of a ROS name without its leading "/".
pub data Mangled : RosEntityKind → String → String → Type 0 where
  topic :
      {dds : String} (rest : String)
      → dds ≡ text_append "rt/" rest
      → Mangled RosEntityKind.topic rest dds
  request :
      {dds : String} (rest : String)
      → dds ≡ text_append "rq/" (text_append rest "Request")
      → Mangled RosEntityKind.service_request rest dds
  reply :
      {dds : String} (rest : String)
      → dds ≡ text_append "rr/" (text_append rest "Reply")
      → Mangled RosEntityKind.service_reply rest dds

-- A mangled name is taken apart into its kind and its ROS name.
pub demangle_topic-Mangled :
    (kind : RosEntityKind) (rest dds : String)
    → Mangled kind rest dds
    → demangle_topic dds ≡ named kind rest
unfolding demangle_topic
demangle_topic-Mangled _ _ dds (topic rest e) = rw e refl
demangle_topic-Mangled _ _ dds (request rest e) = rw e (rw (strip_suffix-append "Request" rest))
demangle_topic-Mangled _ _ dds (reply rest e) = rw e (rw (strip_suffix-append "Reply" rest))

-- Every other name is no ROS name: where the kind is not `not_ros`, the name is a mangled one.
pub Mangled-demangle_topic :
    (dds : String)
    → (demangle_topic dds ≡ no_ros_name)
      ⊎ ((kind : RosEntityKind) × (rest : String) × (demangle_topic dds ≡ named kind rest)
          × Mangled kind rest dds)
unfolding demangle_topic
Mangled-demangle_topic dds = elim (Option-cases (strip_prefix "rt/" dds)) [
  | inr (rest, e) ↦
      inr (RosEntityKind.topic, rest, rw e, topic rest (strip_prefix_sound "rt/" dds rest e))
  | inl no_topic ↦ elim (Option-cases (strip_prefix "rq/" dds)) [
    | inr (rest, e) ↦ elim (Option-cases (strip_suffix "Request" rest)) [
      | inr (name, f) ↦ inr (
        RosEntityKind.service_request,
        name,
        rw (no_topic, e, f),
        request name (
            strip_prefix_sound "rq/" dds rest e
            ∙ ap (text_append "rq/") (strip_suffix_sound "Request" rest name f)),
      )
      | inl f ↦ inl (rw (no_topic, e, f))
    ]
    | inl no_request ↦ elim (Option-cases (strip_prefix "rr/" dds)) [
      | inr (rest, e) ↦ elim (Option-cases (strip_suffix "Reply" rest)) [
        | inr (name, f) ↦ inr (
          RosEntityKind.service_reply,
          name,
          rw (no_topic, no_request, e, f),
          reply name (
              strip_prefix_sound "rr/" dds rest e
              ∙ ap (text_append "rr/") (strip_suffix_sound "Reply" rest name f)),
        )
        | inl f ↦ inl (rw (no_topic, no_request, e, f))
      ]
      | inl e ↦ inl (rw (no_topic, no_request, e))
    ]
  ]
]
