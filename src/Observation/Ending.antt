-- ===== src/Observation/Ending.antt =====
-- decision.cpp, `stats_settled` and `watch_ready`: when an observation has seen enough. The times are
-- `double`s of seconds in the source and nanoseconds here, without the rounding of the conversion.
use fastdds_transport_viz.Prelude.{ℕ, Bool, ◌&&◌, ◌||◌, not, ltb, leb, ◌==◌}

-- kStatsSettleMinSeconds
abbrev pub stats_settle_min : ℕ
stats_settle_min = 5000000000

unfoldable pub stats_settled :
    (discovery_quiet : Bool)
    (elapsed writers_announced writers_heard measurable_pairs measured_instances measured_quiet
      quiet_window : ℕ)
    → Bool
stats_settled quiet elapsed announced heard measurable measured measured_quiet quiet_window =
    quiet
    && leb stats_settle_min elapsed
    && leb announced heard
    && (announced == 0 || measurable == 0 || ltb 0 measured)
    && leb quiet_window measured_quiet

pub watch_ready : (discovery_quiet : Bool) (elapsed : ℕ) (stats : Bool) → Bool
watch_ready quiet elapsed stats = quiet && (not stats || leb stats_settle_min elapsed)
