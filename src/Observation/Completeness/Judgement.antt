-- ===== src/Observation/Completeness/Judgement.antt =====
-- When an observation counts as complete.
use fastdds_transport_viz.Prelude.{
  ℕ, ◌+◌, Bool, true, false, not, ◌≡◌, refl, List, [], ◌∷◌, none, some, any, all, if◌then◌else◌,
  ◌==◌, length, arith, Bool-cases, ◌&&◌, inl, inr,
}
use fastdds_transport_viz.Model.Endpoints.{Endpoint}
use fastdds_transport_viz.Observation.Completeness.{
  DiscoveryStatus, Gid, has_bytes, missing_of, judge_participant, judge_all, discovery_completeness,
  conclude, not_judged, bytes_of,
}

-- A live participant announced endpoints.
abbrev pub any_live : List (Gid × List Gid) → List Gid → Bool
any_live announced live = any (λ kv. has_bytes kv.0 live) announced

-- Each endpoint that a live participant announced was discovered.
abbrev pub all_seen : List (Gid × List Gid) → List Gid → List Gid → Bool
all_seen [] live seen = true
all_seen ((participant, gids) ∷ rest) live seen =
    (if has_bytes participant live then all (λ g. has_bytes g seen) gids else true)
    && all_seen rest live seen

count_if_zero :
    (gids seen : List Gid) → (missing_of gids seen == 0) ≡ all (λ g. has_bytes g seen) gids
count_if_zero [] seen = refl
count_if_zero (g ∷ gids) seen = ground (arith, count_if_zero gids seen)

judge_participant-missing :
    (gids seen : List Gid) (out : DiscoveryStatus)
    → (judge_participant gids seen out).announced_not_discovered
      ≡ out.announced_not_discovered + missing_of gids seen
unfolding judge_participant
judge_participant-missing gids seen out = ground arith

judge_all-compared :
    (announced : List (Gid × List Gid)) (live seen : List Gid) (n : ℕ) (out : DiscoveryStatus)
    → ((judge_all announced live seen (n, out)).0 == 0)
      ≡ ((n == 0) && not (any_live announced live))
unfolding judge_all
judge_all-compared [] live seen n out = ground arith
judge_all-compared ((participant, gids) ∷ rest) live seen n out =
    elim (Bool-cases (has_bytes participant live)) [
      | inl h ↦
          let ih = judge_all-compared rest live seen (n + 1) (judge_participant gids seen out) in
          ground arith
      | inr h ↦ let ih = judge_all-compared rest live seen n out in ground arith
    ]

judge_all-missing :
    (announced : List (Gid × List Gid)) (live seen : List Gid) (n : ℕ) (out : DiscoveryStatus)
    → ((judge_all announced live seen (n, out)).1.announced_not_discovered == 0)
      ≡ ((out.announced_not_discovered == 0) && all_seen announced live seen)
unfolding judge_all
judge_all-missing [] live seen n out = ground arith
judge_all-missing ((participant, gids) ∷ rest) live seen n out =
    elim (Bool-cases (has_bytes participant live)) [
      | inl h ↦
          let ih = judge_all-missing rest live seen (n + 1) (judge_participant gids seen out) in
          let added = judge_participant-missing gids seen out in
          let zero = count_if_zero gids seen in ground arith
      | inr h ↦ let ih = judge_all-missing rest live seen n out in ground arith
    ]

judge_all-complete :
    (announced : List (Gid × List Gid)) (live seen : List Gid) (n : ℕ) (out : DiscoveryStatus)
    → (judge_all announced live seen (n, out)).1.complete ≡ out.complete
unfolding judge_all judge_participant
judge_all-complete [] live seen n out = refl
judge_all-complete ((participant, gids) ∷ rest) live seen n out =
    elim (Bool-cases (has_bytes participant live)) [
      | inl h ↦
          let ih = judge_all-complete rest live seen (n + 1) (judge_participant gids seen out) in
          ground arith
      | inr h ↦ let ih = judge_all-complete rest live seen n out in ground arith
    ]

conclude-complete :
    (after : ℕ × DiscoveryStatus) (any_compared seen : Bool)
    → after.1.complete ≡ none
    → (after.0 == 0) ≡ not any_compared
    → (after.1.announced_not_discovered == 0) ≡ seen
    → (conclude after).complete ≡ (if any_compared then some seen else none)
conclude-complete (n, out) true seen unset compared missing = rw (compared, missing) refl
conclude-complete (n, out) false seen unset compared missing = rw compared unset

-- `complete` is empty when no live participant announced anything, and otherwise says whether
-- every endpoint that a live participant announced is among the discovered ones.
pub discovery_completeness-complete :
    (announced : List (Gid × List Gid)) (live : List Gid) (discovered : List Endpoint)
    → (discovery_completeness announced live discovered).complete ≡ (
        if any_live announced live
        then some (all_seen announced live (bytes_of discovered))
        else none)
unfolding discovery_completeness
discovery_completeness-complete announced live discovered =
    let seen = bytes_of discovered in
    let start = not_judged (length discovered) in
    conclude-complete (judge_all announced live seen (0, start)) (any_live announced live)
      (all_seen announced live seen) (judge_all-complete announced live seen 0 start)
      (judge_all-compared announced live seen 0 start)
      (judge_all-missing announced live seen 0 start)
