-- ===== src/Statistics/Slots.antt =====
-- stats_observer.cpp, `drain`: the entries of the cumulative counters. The first sample of an entry
-- is the value from before the observation.
pub mod Observed
use fastdds_transport_viz.Prelude.{ℕ, ◌+◌, String, Option, none, some, if◌then◌else◌, ◌==◌}
use fastdds_transport_viz.Model.Stats.{TrafficSample, DataCountSample, new_traffic}
use fastdds_transport_viz.Statistics.Samples.{Info, Traffic}

-- The sample of RTPS_SENT, before its entry is looked up.
abbrev pub sent_sample : Traffic → TrafficSample
sent_sample traffic = record new_traffic {
  src_participant_prefix = traffic.src_prefix;
  dst = traffic.dst_locator;
  packets = traffic.packet_count;
  bytes = traffic.byte_count;
}

-- The sample of RTPS_LOST: its publisher is the one that missed the packets.
abbrev pub lost_sample : Info → Traffic → TrafficSample
lost_sample info lost = record (sent_sample lost) {
  reporter_participant_prefix = info.publisher_prefix;
}

-- What the entry holds; a new one is value-initialised.
abbrev pub slot_of : Option TrafficSample → TrafficSample
slot_of none = new_traffic
slot_of (some slot) = slot

abbrev keep_first : TrafficSample → TrafficSample → TrafficSample
keep_first slot s =
    if slot.samples == 0
    then record s { packets_first = s.packets; bytes_first = s.bytes }
    else record s { packets_first = slot.packets_first; bytes_first = slot.bytes_first }

-- `slot = s`
unfoldable pub next_slot : TrafficSample → Option TrafficSample → TrafficSample
next_slot s o = let slot = slot_of o in record (keep_first slot s) { samples = slot.samples + 1 }

abbrev pub counter_of : Option DataCountSample → DataCountSample
counter_of none = record { first = 0; last = 0; samples = 0 }
counter_of (some d) = d

abbrev start_counter : ℕ → DataCountSample → DataCountSample
start_counter count d = if d.samples == 0 then record d { first = count } else d

unfoldable pub next_counter : ℕ → Option DataCountSample → DataCountSample
next_counter count o =
    let d = counter_of o in record (start_counter count d) { last = count; samples = d.samples + 1 }
