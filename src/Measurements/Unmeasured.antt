-- ===== src/Measurements/Unmeasured.antt =====
-- decision.cpp: the losses of the observation, and the pairs that they cost a measurement.
pub mod Laws
use fastdds_transport_viz.Prelude.{
  ℕ, ◌+◌, ◌-◌, String, Bool, true, false, ◌||◌, ◌&&◌, not, List, [], ◌∷◌, ◌++◌, str_eq,
  if◌then◌else◌, ◌==◌, ltb, is_empty,
}
use fastdds_transport_viz.Model.Kinds.{Transport, transport_eq}
use fastdds_transport_viz.Model.Pairs.{Pair, TopicSummary}
use fastdds_transport_viz.Model.Stats.{StatsData}
use fastdds_transport_viz.Decision.Locators.{has_text}
use fastdds_transport_viz.Measurements.Overlay.{without_code}

pub statistics_counter_samples_lost : StatsData → ℕ
statistics_counter_samples_lost stats =
    if ltb stats.samples_lost_latency stats.samples_lost
    then stats.samples_lost - stats.samples_lost_latency
    else 0

abbrev pub lost_any : StatsData → Bool
lost_any stats = ltb 0 (statistics_counter_samples_lost stats + stats.samples_rejected)

pub statistics_samples_were_lost : StatsData → Bool
statistics_samples_were_lost stats =
    lost_any stats && ltb stats.pairs_delivered_absent stats.pairs_delivered_unmeasured

-- The three counters that the loop raises.
pub record Tally : Type 0 where
  pub delivered : ℕ
  pub unmeasured : ℕ
  pub absent : ℕ

-- The pair is one whose delivery is proven and that should show packets.
unfoldable pub is_counted : Pair → Bool
is_counted p =
    let m = p.measured in
    let w = p.verdict.warnings in
    not (
      not m.available
      || not m.delivered
      || transport_eq p.verdict.transport Transport.data_sharing
      || has_text "intra-process" p.verdict.reasons
      || has_text "qos-incompatible" w
      || has_text "shm-ipc-namespace-split" w
      || has_text "stats-writer-instance-limit-suspected" w)

abbrev one_if : Bool → ℕ
one_if true = 1
one_if false = 0

-- One round of the inner loop.
pub tally_pair : Bool → Pair → Tally → Tally
tally_pair lost p t =
    let unmeasured = p.measured.packets == 0 in
    if is_counted p
    then record {
      delivered = t.delivered + 1;
      unmeasured = t.unmeasured + one_if unmeasured;
      absent = t.absent + one_if (unmeasured && (not lost || p.measured.packets_total == 0));
    }
    else t

pub tally_pairs : Bool → List Pair → Tally → Tally
tally_pairs lost [] t = t
tally_pairs lost (p ∷ ps) t = tally_pairs lost ps (tally_pair lost p t)

pub tally_topics : Bool → List TopicSummary → Tally → Tally
tally_topics lost [] t = t
tally_topics lost (s ∷ ss) t = tally_topics lost ss (tally_pairs lost s.pairs t)

abbrev pub no_tally : Tally
no_tally = record { delivered = 0; unmeasured = 0; absent = 0 }

-- The code is taken out, and put back at the end if the test holds.
abbrev pub renew : String → Bool → List String → List String
renew code test codes = without_code code codes ++ (if test then code ∷ [] else [])

abbrev pub with_tally : StatsData → Tally → StatsData
with_tally stats t = record stats {
  pairs_delivered = t.delivered;
  pairs_delivered_unmeasured = t.unmeasured;
  pairs_delivered_absent = t.absent;
}

pub note_unmeasured_pairs : List TopicSummary → StatsData → StatsData
note_unmeasured_pairs topics stats =
    let counted = with_tally stats (tally_topics (lost_any stats) topics no_tally) in
    record counted {
      warnings =
          renew "rtps-sent-absent" (ltb 0 counted.pairs_delivered_absent)
            (renew "stats-samples-lost" (statistics_samples_were_lost counted) stats.warnings);
    }
