-- ===== src/Statistics/Listener/Losses.antt =====
-- What the listener counter_map, against the calls of its callbacks.
use fastdds_transport_viz.Prelude.{
  ℕ, ◌+◌, ◌-◌, Bool, true, false, ◌&&◌, List, [], ◌∷◌, Option, none, some, if◌then◌else◌, ◌==◌, leb,
  ◌≡◌, refl, arith,
}
use fastdds_transport_viz.Prelude.Keys.{text_key, number_key}
use fastdds_transport_viz.Statistics.Samples.{StatsReader, reader_number}
use fastdds_transport_viz.Statistics.Listener.{
  Listener, new_listener, late_join_grace, MatchChange, Callback, sample_lost, sample_rejected,
  subscription_matched, requested_incompatible_qos, on_sample_lost, on_subscription_matched,
  statistics_late_join_window_open, on_callback, run_callbacks,
}

-- The sum of what the calls of a kind report.
module _ (of : Callback → ℕ) where
  abbrev pub reported : List Callback → ℕ
  reported [] = 0
  reported (c ∷ cs) = of c + reported cs

abbrev pub lost_by : Callback → ℕ
lost_by (sample_lost reader now n) = n
lost_by _ = 0

abbrev pub rejected_by : Callback → ℕ
rejected_by (sample_rejected n) = n
rejected_by _ = 0

abbrev pub incompatible_by : Callback → ℕ
incompatible_by (requested_incompatible_qos n) = n
incompatible_by _ = 0

-- The time of the last match, if there was one.
abbrev pub match_time : Callback → Option ℕ → Option ℕ
match_time (subscription_matched reader writer MatchChange.gained now) last = some now
match_time _ last = last

-- A loss counts from five seconds after the last match on.
abbrev pub is_late : Option ℕ → ℕ → Bool
is_late none now = false
is_late (some matched) now = leb late_join_grace (now - matched)

abbrev pub late_loss : Option ℕ → Callback → ℕ
late_loss last (sample_lost reader now n) = if is_late last now then n else 0
late_loss last _ = 0

-- ... of one reader alone.
abbrev pub late_loss_at : StatsReader → Option ℕ → Callback → ℕ
late_loss_at only last (sample_lost reader now n) =
    if is_late last now && reader_number reader == reader_number only then n else 0
late_loss_at only last _ = 0

module _ (loss : Option ℕ → Callback → ℕ) where
  abbrev pub late_losses : Option ℕ → List Callback → ℕ
  late_losses last [] = 0
  late_losses last (c ∷ cs) = loss last c + late_losses (match_time c last) cs

-- The listener knows the last match.
abbrev Knows : Option ℕ → Listener → Type 0
Knows none l = l.any_match ≡ false
Knows (some t) l = (l.any_match ≡ true) × (l.last_match_ticks ≡ t)

Knows-same :
    (last : Option ℕ) (l m : Listener)
    → m.any_match ≡ l.any_match
    → m.last_match_ticks ≡ l.last_match_ticks
    → Knows last l
    → Knows last m
Knows-same none l m a t k = ground arith
Knows-same (some u) l m a t k = ground arith

-- The three counters of losses after one call.
on_callback-lost :
    (last : Option ℕ) (c : Callback) (l : Listener)
    → Knows last l
    → l.event_reader ≡ some StatsReader.history_latency
    → ((on_callback c l).lost ≡ l.lost + late_loss last c)
      × ((on_callback c l).lost_latency
          ≡ l.lost_latency + late_loss_at StatsReader.history_latency last c)
      × ((on_callback c l).lost + (on_callback c l).lost_at_start
          ≡ l.lost + l.lost_at_start + lost_by c)
      × Knows (match_time c last) (on_callback c l)
      × ((on_callback c l).event_reader ≡ some StatsReader.history_latency)
unfolding on_callback on_sample_lost on_subscription_matched statistics_late_join_window_open
on_callback-lost none (sample_lost reader now n) l k e = ground arith
on_callback-lost (some t) (sample_lost reader now n) l k e = ground arith
on_callback-lost last (sample_rejected n) l k e =
    (omega arith, omega arith, omega arith, Knows-same last l _ refl refl k, e)
on_callback-lost last (subscription_matched reader writer MatchChange.gained now) l k e =
    (omega arith, omega arith, omega arith, (refl, refl), e)
on_callback-lost last (subscription_matched reader writer MatchChange.lost_one now) l k e =
    (omega arith, omega arith, omega arith, Knows-same last l _ refl refl k, e)
on_callback-lost last (subscription_matched reader writer MatchChange.unchanged now) l k e =
    (omega arith, omega arith, omega arith, Knows-same last l _ refl refl k, e)
on_callback-lost last (requested_incompatible_qos n) l k e =
    (omega arith, omega arith, omega arith, Knows-same last l _ refl refl k, e)

run_callbacks-lost :
    (last : Option ℕ) (cs : List Callback) (l : Listener)
    → Knows last l
    → l.event_reader ≡ some StatsReader.history_latency
    → ((run_callbacks cs l).lost ≡ l.lost + late_losses late_loss last cs)
      × ((run_callbacks cs l).lost_latency
          ≡ l.lost_latency + late_losses (late_loss_at StatsReader.history_latency) last cs)
      × ((run_callbacks cs l).lost + (run_callbacks cs l).lost_at_start
          ≡ l.lost + l.lost_at_start + reported lost_by cs)
unfolding run_callbacks
run_callbacks-lost last [] l k e = (omega arith, omega arith, omega arith)
run_callbacks-lost last (c ∷ cs) l k e =
    let (lost, lost_latency, total, k', e') = on_callback-lost last c l k e in
    let (losts, lost_latencies, totals) =
      run_callbacks-lost (match_time c last) cs (on_callback c l) k' e' in
    (omega arith, omega arith, omega arith)

-- Over any calls of the callbacks, `lost` is the sum of the losses that came five seconds or more
-- after the last match before them, `lost_latency` the part of it from the reader of
-- HISTORY_LATENCY, and `lost_at_start` the rest of all the losses reported.
pub run_callbacks-losses :
    (start : ℕ) (cs : List Callback)
    → ((run_callbacks cs (new_listener start)).lost ≡ late_losses late_loss none cs)
      × ((run_callbacks cs (new_listener start)).lost_latency
          ≡ late_losses (late_loss_at StatsReader.history_latency) none cs)
      × ((run_callbacks cs (new_listener start)).lost
            + (run_callbacks cs (new_listener start)).lost_at_start
          ≡ reported lost_by cs)
run_callbacks-losses start cs =
    let (a, b, c) = run_callbacks-lost none cs (new_listener start) refl refl in
    (omega arith, omega arith, omega arith)
