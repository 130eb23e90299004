-- ===== src/Statistics/Listener.antt =====
-- stats_observer.cpp, `StatsObserver::Listener`: the callbacks of the statistics readers, and
-- decision.cpp, `statistics_late_join_window_open`. Times are ticks of the steady clock, which are
-- nanoseconds; the clock is an argument, as is the `status` of each call. The counters stay below
-- 2^64.
pub mod Losses
pub mod Matches
use fastdds_transport_viz.Prelude.{
  ℕ, ◌+◌, ◌-◌, String, Bool, true, false, ◌||◌, not, List, [], ◌∷◌, Option, none, some,
  if◌then◌else◌, ◌==◌, ltb,
}
use fastdds_transport_viz.Prelude.OrderedMap.{Key, insert}
use fastdds_transport_viz.Prelude.OrderedMap.Updates.{update_at, erase}
use fastdds_transport_viz.Prelude.Keys.{text_key, number_key}
use fastdds_transport_viz.Statistics.Samples.{StatsReader, reader_number}

-- std::set of texts, as the map of its elements.
abbrev pub TextSet : Type 0
TextSet = List (String × Unit)

-- A map whose keys are readers; `reader_number` stands for the pointer.
abbrev pub ReaderSets : Type 0
ReaderSets = List (ℕ × TextSet)

abbrev pub set_at : Option TextSet → TextSet
set_at none = []
set_at (some s) = s

pub record Listener : Type 0 where
  pub lost : ℕ
  pub lost_latency : ℕ
  pub event_reader : Option StatsReader
  pub lost_at_start : ℕ
  pub rejected : ℕ
  pub incompatible_qos : ℕ
  pub any_match : Bool
  pub last_match_ticks : ℕ
  pub matched : ReaderSets

-- The listener of an observer that was made at `now`, once its readers exist.
abbrev pub new_listener : ℕ → Listener
new_listener now = record {
  lost = 0;
  lost_latency = 0;
  event_reader = some StatsReader.history_latency;
  lost_at_start = 0;
  rejected = 0;
  incompatible_qos = 0;
  any_match = false;
  last_match_ticks = now;
  matched = [];
}

-- kStatisticsLateJoinGraceSeconds
abbrev pub late_join_grace : ℕ
late_join_grace = 5000000000

pub statistics_late_join_window_open : Bool → ℕ → Bool
statistics_late_join_window_open any_writer_matched since =
    not any_writer_matched || ltb since late_join_grace

-- `reader == event_reader.load()`
abbrev pub is_reader : StatsReader → Option StatsReader → Bool
is_reader reader none = false
is_reader reader (some r) = reader_number reader == reader_number r

pub on_sample_lost : StatsReader → (now total_count_change : ℕ) → Listener → Listener
on_sample_lost reader now n l =
    if statistics_late_join_window_open l.any_match (now - l.last_match_ticks)
    then record l { lost_at_start = l.lost_at_start + n }
    else if is_reader reader l.event_reader
    then record l { lost = l.lost + n; lost_latency = l.lost_latency + n }
    else record l { lost = l.lost + n }

abbrev pub on_sample_rejected : (total_count_change : ℕ) → Listener → Listener
on_sample_rejected n l = record l { rejected = l.rejected + n }

abbrev pub on_requested_incompatible_qos : (total_count_change : ℕ) → Listener → Listener
on_requested_incompatible_qos n l = record l { incompatible_qos = l.incompatible_qos + n }

-- The sign of `current_count_change`.
pub data MatchChange : Type 0 where
  gained lost_one unchanged : MatchChange

pub on_subscription_matched :
    StatsReader → (writer : String) → MatchChange → (now : ℕ) → Listener → Listener
on_subscription_matched reader writer MatchChange.gained now l = record l {
  matched = update_at (reader_number reader) (λ o. insert writer tt (set_at o)) l.matched;
  last_match_ticks = now;
  any_match = true;
}
on_subscription_matched reader writer MatchChange.lost_one now l = record l {
  matched = update_at (reader_number reader) (λ o. erase writer (set_at o)) l.matched;
}
on_subscription_matched reader writer MatchChange.unchanged now l = l

-- One call of a callback.
pub data Callback : Type 0 where
  sample_lost : (reader : StatsReader) (now change : ℕ) → Callback
  sample_rejected : (change : ℕ) → Callback
  subscription_matched :
      (reader : StatsReader) (writer : String) (change : MatchChange) (now : ℕ) → Callback
  requested_incompatible_qos : (change : ℕ) → Callback

pub on_callback : Callback → Listener → Listener
on_callback (sample_lost reader now n) = on_sample_lost reader now n
on_callback (sample_rejected n) = on_sample_rejected n
on_callback (subscription_matched reader writer change now) =
    on_subscription_matched reader writer change now
on_callback (requested_incompatible_qos n) = on_requested_incompatible_qos n

pub run_callbacks : List Callback → Listener → Listener
run_callbacks [] l = l
run_callbacks (c ∷ cs) l = run_callbacks cs (on_callback c l)
