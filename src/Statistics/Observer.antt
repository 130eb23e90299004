-- ===== src/Statistics/Observer.antt =====
-- stats_observer.cpp: the state that `StatsObserver` keeps under its mutex, and the operations on
-- it. A drain gives the mutex back between samples, so its steps are events of their own, and a run
-- is a list of events in the order in which they take the mutex. The latency values are left out.
pub mod Runs
pub mod Counters
pub mod Entities
pub mod Bounds
pub mod Heard
pub mod Deliveries
use fastdds_transport_viz.Prelude.{
  ℕ, ◌+◌, ◌-◌, String, Bool, true, false, List, [], ◌∷◌, ◌++◌, Option, none, some, map, max,
  count_if, length, ltb, if◌then◌else◌, ◌==◌, ◌&&◌,
}
use fastdds_transport_viz.Prelude.OrderedMap.{Key, lookup, has_key, insert}
use fastdds_transport_viz.Prelude.OrderedMap.Updates.{update_at}
use fastdds_transport_viz.Prelude.Keys.{text_key, text_pair_key, number_key}
use fastdds_transport_viz.Prelude.Text.{text_append}
use fastdds_transport_viz.Model.Stats.{
  TrafficSample, DataCountSample, HostInfo, StatsData, new_stats, DeliveryWindow,
}
use fastdds_transport_viz.Decision.Locators.{has_text}
use fastdds_transport_viz.Observation.Destinations.{ReaderDestinations, measures_a_pair}
use fastdds_transport_viz.Statistics.Samples.{
  StatsReader, reader_number, Info, timestamp, Traffic, Delivery, EntityCount, Physical, TrafficKey,
  LostKey, traffic_key, lost_key, traffic_key_of, lost_key_of,
}
use fastdds_transport_viz.Statistics.Slots.{sent_sample, lost_sample, next_slot, next_counter}
use fastdds_transport_viz.Statistics.Windows.{
  PairSecond, WriterSecond, stats_rate_window_seconds, prune_map, next_pair_seconds,
  next_writer_seconds, oldest_second, reduce_pair, reduce_writer,
}
use fastdds_transport_viz.Statistics.Listener.{Listener, TextSet, ReaderSets, set_at}

pub record Observer : Type 0 where
  pub traffic : List (TrafficKey × TrafficSample)
  pub reader_destinations : ReaderDestinations
  pub lost : List (LostKey × TrafficSample)
  pub stats : StatsData
  pub heard : ReaderSets
  pub pair_seconds : List ((String × String) × List PairSecond)
  pub writer_seconds : List (String × List WriterSecond)
  pub newest_second : Option ℕ
  pub sliding_window : Bool

-- The observer of a new participant.
abbrev pub new_observer : Observer
new_observer = record {
  traffic = [];
  reader_destinations = record { unicast_ports = []; multicast_locators = [] };
  lost = [];
  stats = record new_stats { enabled = true };
  heard = [];
  pair_seconds = [];
  writer_seconds = [];
  newest_second = none;
  sliding_window = false;
}

abbrev pub add_text : String → List String → List String
add_text t ts = if has_text t ts then ts else ts ++ t ∷ []

-- The lambda `count_sample`.
abbrev pub count_sample : Info → StatsData → StatsData
count_sample info d = record d {
  samples = d.samples + 1;
  participants_with_stats = add_text info.publisher_prefix d.participants_with_stats;
}

-- `heard_[r.reader].insert(...)` of `count_counter_sample`
abbrev pub hear : StatsReader → Info → ReaderSets → ReaderSets
hear reader info = update_at (reader_number reader) (λ o. insert info.writer_guid tt (set_at o))

-- The bodies of the loops of `drain`, for a sample with valid data.
pub take_sent : Info → Traffic → Observer → Observer
take_sent info traffic o =
    let s = sent_sample traffic in
    record o {
      stats = count_sample info o.stats;
      heard = hear StatsReader.rtps_sent info o.heard;
      traffic = update_at (traffic_key_of s) (next_slot s) o.traffic;
    }

abbrev pub next_count : Option ℕ → ℕ
next_count none = 1
next_count (some n) = n + 1

-- `if (sec > newest_second_) {newest_second_ = sec;}` from INT64_MIN on.
abbrev pub newest : ℕ → Option ℕ → Option ℕ
newest sec none = some sec
newest sec (some n) = some (max n sec)

abbrev pub pair_of : Delivery → String × String
pair_of d = (d.writer_guid, d.reader_guid)

unfoldable pub take_delivery : Info → Delivery → Observer → Observer
take_delivery info d o =
    let pair = pair_of d in
    let stats = count_sample info o.stats in
    record o {
      stats = record stats { delivered = update_at pair next_count stats.delivered };
      newest_second = newest info.seconds o.newest_second;
      pair_seconds =
          update_at pair (next_pair_seconds info.seconds (timestamp info)) o.pair_seconds;
      writer_seconds =
          update_at info.publisher_prefix (next_writer_seconds info.seconds info.sequence_number)
            o.writer_seconds;
    }

-- The readers that `drain_counter` takes, each with its map.
pub data Counter : Type 0 where
  data_count resent_datas heartbeats gaps acknacks nackfrags : Counter

abbrev pub counter_reader : Counter → StatsReader
counter_reader Counter.data_count = StatsReader.data_count
counter_reader Counter.resent_datas = StatsReader.resent_datas
counter_reader Counter.heartbeats = StatsReader.heartbeat_count
counter_reader Counter.gaps = StatsReader.gap_count
counter_reader Counter.acknacks = StatsReader.acknack_count
counter_reader Counter.nackfrags = StatsReader.nackfrag_count

abbrev pub counter_map : Counter → StatsData → List (String × DataCountSample)
counter_map Counter.data_count d = d.data_count
counter_map Counter.resent_datas d = d.resent_datas
counter_map Counter.heartbeats d = d.heartbeats
counter_map Counter.gaps d = d.gaps
counter_map Counter.acknacks d = d.acknacks
counter_map Counter.nackfrags d = d.nackfrags

abbrev pub set_counter_map : Counter → List (String × DataCountSample) → StatsData → StatsData
set_counter_map Counter.data_count m d = record d { data_count = m }
set_counter_map Counter.resent_datas m d = record d { resent_datas = m }
set_counter_map Counter.heartbeats m d = record d { heartbeats = m }
set_counter_map Counter.gaps m d = record d { gaps = m }
set_counter_map Counter.acknacks m d = record d { acknacks = m }
set_counter_map Counter.nackfrags m d = record d { nackfrags = m }

pub take_count : Counter → Info → EntityCount → Observer → Observer
take_count c info count o =
    let stats = count_sample info o.stats in
    record o {
      stats =
          set_counter_map c (update_at count.guid (next_counter count.count) (counter_map c stats))
            stats;
      heard = hear (counter_reader c) info o.heard;
    }

pub take_lost : Info → Traffic → Observer → Observer
take_lost info lost o =
    let s = lost_sample info lost in
    record o {
      stats = count_sample info o.stats;
      heard = hear StatsReader.rtps_lost info o.heard;
      lost = update_at (lost_key_of s) (next_slot s) o.lost;
    }

pub take_physical : Info → Physical → Observer → Observer
take_physical info p o =
    let stats = count_sample info o.stats in
    record o {
      stats = record stats { physical = insert p.participant_prefix p.host_info stats.physical };
    }

abbrev pub prune_windows : Option ℕ → Observer → Observer
prune_windows none o = o
prune_windows (some n) o = record o {
  pair_seconds = prune_map (λ s. s.sec) (oldest_second n) o.pair_seconds;
  writer_seconds = prune_map (λ s. s.sec) (oldest_second n) o.writer_seconds;
}

unfoldable pub prune_rate_window : Observer → Observer
prune_rate_window o = if o.sliding_window then prune_windows o.newest_second o else o

abbrev pub set_rate_window : Bool → Observer → Observer
set_rate_window sliding o = prune_rate_window (record o {
  sliding_window = sliding;
  stats = record o.stats { rate_window_s = if sliding then stats_rate_window_seconds else 0 };
})

abbrev pub set_reader_destinations : ReaderDestinations → Observer → Observer
set_reader_destinations destinations o = record o { reader_destinations = destinations }

-- What happens under the mutex. A sample is what `take_next_sample` returned.
pub data Event : Type 0 where
  sent : Info → Traffic → Event
  delivery : Info → Delivery → Event
  end_of_deliveries : Event
  count : Counter → Info → EntityCount → Event
  lost : Info → Traffic → Event
  physical : Info → Physical → Event
  rate_window : Bool → Event
  destinations : ReaderDestinations → Event

-- `if (!info.valid_data) {continue;}`
abbrev pub if_valid : Info → (Observer → Observer) → Observer → Observer
if_valid info take o = if info.valid_data then take o else o

unfoldable pub on_event : Event → Observer → Observer
on_event (sent info t) = if_valid info (take_sent info t)
on_event (delivery info d) = if_valid info (take_delivery info d)
on_event end_of_deliveries = prune_rate_window
on_event (count c info n) = if_valid info (take_count c info n)
on_event (lost info t) = if_valid info (take_lost info t)
on_event (physical info p) = if_valid info (take_physical info p)
on_event (rate_window sliding) = set_rate_window sliding
on_event (destinations d) = set_reader_destinations d

unfoldable pub run_events : List Event → Observer → Observer
run_events [] o = o
run_events (e ∷ es) o = run_events es (on_event e o)

-- What the readers hold for one drain, in the order in which they give it.
pub record Takes : Type 0 where
  pub rtps_sent : List (Info × Traffic)
  pub history_latency : List (Info × Delivery)
  pub counters : Counter → List (Info × EntityCount)
  pub rtps_lost : List (Info × Traffic)
  pub physical_data : List (Info × Physical)

abbrev counter_events : Takes → Counter → List Event
counter_events t c = map (λ s. count c s.0 s.1) (t.counters c)

-- The loops of `drain`, in its order.
pub drain_events : Takes → List Event
drain_events t =
    map (λ s. sent s.0 s.1) t.rtps_sent
    ++ map (λ s. delivery s.0 s.1) t.history_latency
    ++ end_of_deliveries ∷ []
    ++ counter_events t Counter.data_count
    ++ counter_events t Counter.resent_datas
    ++ counter_events t Counter.heartbeats
    ++ counter_events t Counter.gaps
    ++ counter_events t Counter.acknacks
    ++ counter_events t Counter.nackfrags
    ++ map (λ s. lost s.0 s.1) t.rtps_lost
    ++ map (λ s. physical s.0 s.1) t.physical_data

pub drain : Takes → Observer → Observer
drain t = run_events (drain_events t)
