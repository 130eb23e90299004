-- ===== src/Measurements/Apply.antt =====
-- decision.cpp, `apply_stats`: the loops over the topics and their pairs. The topic's latency and
-- loss counters are left out, with the fields that they sum up.
use fastdds_transport_viz.Prelude.{
  ℕ, String, Bool, ◌||◌, ◌&&◌, not, List, [], ◌∷◌, ◌++◌, all, str_eq, if◌then◌else◌, ◌==◌, leb,
  count_if, map,
}
use fastdds_transport_viz.Model.Kinds.{Transport, transport_eq}
use fastdds_transport_viz.Model.Pairs.{Pair, TopicSummary}
use fastdds_transport_viz.Model.Stats.{StatsData}
use fastdds_transport_viz.Measurements.Locators.{is_datasharing_split}
use fastdds_transport_viz.Measurements.Counters.{measure}
use fastdds_transport_viz.Measurements.Overlay.{Surroundings, overlay}

abbrev stats_writer_instance_limit : ℕ
stats_writer_instance_limit = 10

-- `locators_per_source[src]`
unfoldable locators_per_source : StatsData → String → ℕ
locators_per_source stats src = count_if (λ s. str_eq s.src_participant_prefix src) stats.traffic

-- Another writer's pair, or one without DATA submessages.
abbrev datasharing_reader : Pair → Pair → Bool
datasharing_reader p q =
    not (q.writer.place == p.writer.place)
    || transport_eq q.verdict.transport Transport.data_sharing
    || is_datasharing_split q.verdict

unfoldable surroundings : StatsData → List Pair → Pair → Surroundings
surroundings stats pairs p = record {
  limit_suspected =
      stats.writer_instance_limit
      && leb stats_writer_instance_limit
          (locators_per_source stats p.writer.target.participant_guid_prefix);
  all_readers_datasharing = all (datasharing_reader p) pairs;
  local_addresses = stats.local_addresses;
}

-- One round of the inner loop: `pairs` is the topic's vector as it stands then.
pub apply_pair : StatsData → List Pair → Pair → Pair
apply_pair stats pairs p =
    let m = measure stats p.writer.target p.reader.target p.measured in
    record p { measured = m; verdict = overlay (surroundings stats pairs p) m p.verdict }

-- The inner loop: the pairs before this round carry their new verdicts already.
pub apply_pairs : StatsData → List Pair → List Pair → List Pair
apply_pairs stats done [] = done
apply_pairs stats done (p ∷ todo) =
    apply_pairs stats (done ++ apply_pair stats (done ++ p ∷ todo) p ∷ []) todo

abbrev pub apply_topic : StatsData → TopicSummary → TopicSummary
apply_topic stats t = record t { pairs = apply_pairs stats [] t.pairs }

pub apply_stats : List TopicSummary → StatsData → List TopicSummary
apply_stats topics stats = if stats.enabled then map (apply_topic stats) topics else topics
