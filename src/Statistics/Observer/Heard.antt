-- ===== src/Statistics/Observer/Heard.antt =====
-- The writers that the observer heard of, against the samples of a run.
use fastdds_transport_viz.Prelude.{
  String, Bool, false, ◌||◌, List, [], ◌∷◌, ◌==◌, ◌≡◌, refl, inl, inr, arith, Bool-cases, str_eq,
  any, any-append, collect,
}
use fastdds_transport_viz.Prelude.OrderedMap.{lookup, insert}
use fastdds_transport_viz.Prelude.OrderedMap.Updates.{has_key-insert}
use fastdds_transport_viz.Prelude.Keys.{text_key, number_key}
use fastdds_transport_viz.Statistics.Samples.{StatsReader, reader_number}
use fastdds_transport_viz.Statistics.Listener.{set_at}
use fastdds_transport_viz.Statistics.Listener.Matches.{holds, holds-update_at}
use fastdds_transport_viz.Statistics.Observer.{
  Observer, Counter, counter_reader, Event, sent, delivery, end_of_deliveries, count, lost,
  physical, rate_window, destinations, on_event, run_events, take_sent, take_lost, take_count,
  take_delivery, take_physical,
}
use fastdds_transport_viz.Statistics.Observer.Counters.{valid}
use fastdds_transport_viz.Statistics.Observer.Runs.{
  if_valid-keeps, if_valid-get, prune_rate_window-keeps,
}

-- The writers of the valid samples of RTPS_SENT.
abbrev pub sent_writers : Event → List String
sent_writers (sent info t) = valid info info.writer_guid
sent_writers _ = []

abbrev pub is_text : String → String → Bool
is_text writer w = str_eq w writer

abbrev pub heard : String → Observer → Bool
heard writer o = holds StatsReader.rtps_sent writer o.heard

not_sent : (c : Counter) → (reader_number (counter_reader c) == 0) ≡ false
not_sent c = ground arith

on_event-heard :
    (writer : String) (e : Event) (o : Observer)
    → heard writer (on_event e o) ≡ (any (is_text writer) (sent_writers e) || heard writer o)
unfolding on_event take_sent take_lost take_count take_delivery take_physical
on_event-heard writer (sent info t) o =
    rw
      (
        if_valid-get (heard writer) info (take_sent info t) o,
        holds-update_at StatsReader.rtps_sent StatsReader.rtps_sent writer
            (insert info.writer_guid tt) o.heard,
        has_key-insert info.writer_guid writer tt (set_at (lookup 0 o.heard)),
      )
      (elim (Bool-cases info.valid_data) [ inl e ↦ rw e (ground arith) | inr e ↦ rw e refl ])
on_event-heard writer (delivery info d) o =
    if_valid-keeps (heard writer) info (take_delivery info d) o refl
on_event-heard writer end_of_deliveries o = rw (prune_rate_window-keeps o).3 refl
on_event-heard writer (count c info n) o =
    if_valid-keeps (heard writer) info (take_count c info n) o (
      rw
        (
          holds-update_at (counter_reader c) StatsReader.rtps_sent writer
              (insert info.writer_guid tt) o.heard,
          not_sent c,
        )
        refl)
on_event-heard writer (lost info t) o = if_valid-keeps (heard writer) info (take_lost info t) o (
    rw
      (holds-update_at StatsReader.rtps_lost StatsReader.rtps_sent writer
        (insert info.writer_guid tt) o.heard)
      refl)
on_event-heard writer (physical info p) o =
    if_valid-keeps (heard writer) info (take_physical info p) o refl
on_event-heard writer (rate_window b) o = rw (prune_rate_window-keeps _).3 refl
on_event-heard writer (destinations d) o = refl

pub run_events-heard :
    (writer : String) (es : List Event) (o : Observer)
    → heard writer (run_events es o)
      ≡ (any (is_text writer) (collect sent_writers es) || heard writer o)
unfolding run_events
run_events-heard writer [] o = refl
run_events-heard writer (e ∷ es) o =
    rw
      (
        run_events-heard writer es (on_event e o),
        on_event-heard writer e o,
        any-append (is_text writer) (sent_writers e) (collect sent_writers es),
      )
      (ground arith)
