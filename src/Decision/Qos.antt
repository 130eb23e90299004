-- ===== src/Decision/Qos.antt =====
-- decision.cpp: the request and offer policies on which Fast DDS matches two endpoints.
-- `fnmatch` of the C library is a parameter: `fnmatch a b` holds where `::fnmatch(a, b, 0) == 0`.
pub mod Compatible
use fastdds_transport_viz.Prelude.{
  String, Bool, true, false, ◌||◌, ◌&&◌, not, List, [], ◌∷◌, ◌++◌, Option, none, some, ℕ, any,
  str_eq, if◌then◌else◌, ltb,
}
use fastdds_transport_viz.Model.Endpoints.{Endpoint, EndpointQos, longer}

-- The ranks are -1 for an unknown name, which is `none` here.
unfoldable pub durability_rank : String → Option ℕ
durability_rank d =
    if str_eq d "VOLATILE"
    then some 0
    else if str_eq d "TRANSIENT_LOCAL"
    then some 1
    else if str_eq d "TRANSIENT"
    then some 2
    else if str_eq d "PERSISTENT"
    then some 3
    else none

unfoldable pub liveliness_rank : String → Option ℕ
liveliness_rank l =
    if str_eq l "AUTOMATIC"
    then some 0
    else if str_eq l "MANUAL_BY_PARTICIPANT"
    then some 1
    else if str_eq l "MANUAL_BY_TOPIC"
    then some 2
    else none

-- `a >= 0 && b >= 0 && a < b`
abbrev pub rank_below : Option ℕ → Option ℕ → Bool
rank_below (some a) (some b) = ltb a b
rank_below _ _ = false

-- An empty list is the default partition "".
abbrev pub or_default : List String → List String
or_default [] = "" ∷ []
or_default (p ∷ ps) = p ∷ ps

-- `if (test) out.push_back(code);`
abbrev pub when : Bool → String → List String
when true code = code ∷ []
when false code = []

module _ (fnmatch : String → String → Bool) where
  unfoldable pub partitions_match : List String → List String → Bool
  partitions_match w r =
      any (λ a. any (λ b. str_eq a b || fnmatch a b || fnmatch b a) (or_default r)) (or_default w)

  abbrev pub reliability_fails : EndpointQos → EndpointQos → Bool
  reliability_fails w r = str_eq w.reliability "BEST_EFFORT" && str_eq r.reliability "RELIABLE"

  abbrev pub durability_fails : EndpointQos → EndpointQos → Bool
  durability_fails w r = rank_below (durability_rank w.durability) (durability_rank r.durability)

  abbrev pub liveliness_fails : EndpointQos → EndpointQos → Bool
  liveliness_fails w r =
      rank_below (liveliness_rank w.liveliness) (liveliness_rank r.liveliness)
      || longer w.liveliness_lease_s r.liveliness_lease_s

  unfoldable pub qos_incompatibilities : Endpoint → Endpoint → List String
  qos_incompatibilities writer reader =
      let w = writer.qos in
      let r = reader.qos in
      when (reliability_fails w r) "reliability"
      ++ (when (durability_fails w r) "durability"
          ++ (when (longer w.deadline_s r.deadline_s) "deadline"
              ++ (when (liveliness_fails w r) "liveliness"
                  ++ (when (not (str_eq w.ownership r.ownership)) "ownership"
                      ++ when (not (partitions_match w.partitions r.partitions)) "partition"))))
