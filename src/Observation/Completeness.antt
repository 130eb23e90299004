-- ===== src/Observation/Completeness.antt =====
-- decision.cpp, `discovery_completeness`: the announced endpoints against the discovered ones.
pub mod Judgement
use fastdds_transport_viz.Prelude.{
  ℕ, ◌+◌, Bool, true, false, not, List, [], ◌∷◌, Option, none, some, any, if◌then◌else◌, ◌==◌,
  length, count_if, ltb, map,
}
use fastdds_transport_viz.Model.Endpoints.{Endpoint, bytes_eq}

-- The counters of DiscoveryStatus that the function sets.
pub record DiscoveryStatus : Type 0 where
  pub complete : Option Bool
  pub endpoints : ℕ
  pub announced_not_discovered : ℕ
  pub participants_incomplete : ℕ
  pub announced_by_incomplete : ℕ

abbrev pub Gid : Type 0
Gid = List ℕ

-- `set.count(gid) > 0`
abbrev pub has_bytes : Gid → List Gid → Bool
has_bytes g = any (λ x. bytes_eq x g)

abbrev pub missing_of : List Gid → List Gid → ℕ
missing_of gids seen = count_if (λ g. not (has_bytes g seen)) gids

-- One round over a live participant.
pub judge_participant : List Gid → List Gid → DiscoveryStatus → DiscoveryStatus
judge_participant gids seen out =
    if ltb 0 (missing_of gids seen)
    then record out {
      announced_not_discovered = out.announced_not_discovered + missing_of gids seen;
      announced_by_incomplete = out.announced_by_incomplete + length gids;
      participants_incomplete = out.participants_incomplete + 1;
    }
    else out

-- The loop, with `compared` as the first part.
pub judge_all :
    List (Gid × List Gid) → List Gid → List Gid → ℕ × DiscoveryStatus → ℕ × DiscoveryStatus
judge_all [] live seen acc = acc
judge_all ((participant, gids) ∷ rest) live seen (compared, out) = judge_all rest live seen (
    if has_bytes participant live
    then (compared + 1, judge_participant gids seen out)
    else (compared, out))

-- Nothing announced, nothing judged: `complete` stays unset.
abbrev pub conclude : ℕ × DiscoveryStatus → DiscoveryStatus
conclude (compared, out) =
    if compared == 0
    then out
    else record out { complete = some (out.announced_not_discovered == 0) }

abbrev pub not_judged : ℕ → DiscoveryStatus
not_judged endpoints = record {
  complete = none;
  endpoints = endpoints;
  announced_not_discovered = 0;
  participants_incomplete = 0;
  announced_by_incomplete = 0;
}

abbrev pub bytes_of : List Endpoint → List Gid
bytes_of discovered = map (λ e. e.guid_bytes) discovered

pub discovery_completeness : List (Gid × List Gid) → List Gid → List Endpoint → DiscoveryStatus
discovery_completeness announced live discovered =
    conclude (judge_all announced live (bytes_of discovered) (0, not_judged (length discovered)))
