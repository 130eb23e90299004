-- ===== src/Measurements/Counters/Totals.antt =====
-- The totals of a measurement agree with its locators.
use fastdds_transport_viz.Prelude.{
  ℕ, ◌+◌, ◌≤◌, String, Bool, true, false, ◌≡◌, refl, List, [], ◌∷◌, ◌++◌, Option, none, some,
  is_empty, if◌then◌else◌, arith,
}
use fastdds_transport_viz.Model.Kinds.{Transport}
use fastdds_transport_viz.Model.Endpoints.{Endpoint}
use fastdds_transport_viz.Model.Pairs.{Measurement, MeasuredLocator, new_measurement}
use fastdds_transport_viz.Model.Stats.{TrafficSample, DataCountSample, StatsData}
use fastdds_transport_viz.Measurements.Counters.{
  belongs, add_traffic, add_transport, measure_traffic, measure_data_count, measure_delivered,
  measure, data_count_loop, add_data_count,
}
use fastdds_transport_viz.Measurements.Locators.{entity_guids}
use fastdds_transport_viz.Prelude.OrderedMap.{lookup}
use fastdds_transport_viz.Prelude.Keys.{text_key}

abbrev pub total : (MeasuredLocator → ℕ) → List MeasuredLocator → ℕ
total f [] = 0
total f (l ∷ ls) = f l + total f ls

total-append :
    (f : MeasuredLocator → ℕ) (xs ys : List MeasuredLocator)
    → total f (xs ++ ys) ≡ total f xs + total f ys
total-append f [] ys = omega arith
total-append f (x ∷ xs) ys = omega (arith, total-append f xs ys)

-- The entries of the locators sum to the totals, the window is no more than the whole run, and a
-- transport is listed when and only when a locator is.
pub record IsTotalled (m : Measurement) : Type 0 where
  pub packets : total (λ l. l.packets) m.locators ≡ m.packets
  pub bytes : total (λ l. l.bytes) m.locators ≡ m.bytes
  pub packets_bounded : m.packets ≤ m.packets_total
  pub bytes_bounded : m.bytes ≤ m.bytes_total
  pub transports : is_empty m.transports ≡ is_empty m.locators

not_empty-last : {A : Type 0} (xs : List A) (x : A) → is_empty (xs ++ x ∷ []) ≡ false
not_empty-last [] x = refl
not_empty-last (y ∷ ys) x = refl

any_not_empty : (t : Transport) (ts : List Transport) → is_empty (add_transport t ts) ≡ false
any_not_empty t [] = refl
any_not_empty t (u ∷ us) = ground (arith, not_empty-last us t)

add_traffic-IsTotalled :
    (s : TrafficSample) (m : Measurement) → IsTotalled m → IsTotalled (add_traffic s m)
add_traffic-IsTotalled s m h = record {
  packets = omega (arith, total-append (λ l. l.packets) m.locators _, h.packets);
  bytes = omega (arith, total-append (λ l. l.bytes) m.locators _, h.bytes);
  packets_bounded = omega (arith, h.packets_bounded);
  bytes_bounded = omega (arith, h.bytes_bounded);
  transports = rw (any_not_empty _ m.transports, not_empty-last m.locators _);
}

measure_traffic-IsTotalled :
    (stats : StatsData) (w r : Endpoint) (ss : List TrafficSample) (m : Measurement)
    → IsTotalled m
    → IsTotalled (measure_traffic stats w r ss m)
unfolding measure_traffic
measure_traffic-IsTotalled stats w r [] m h = h
measure_traffic-IsTotalled stats w r (s ∷ ss) m h =
    measure_traffic-IsTotalled stats w r ss _ (cases (belongs stats w r s))
  where
    cases : (b : Bool) → IsTotalled (if b then add_traffic s m else m)
    cases true = add_traffic-IsTotalled s m h
    cases false = h

data_count_loop-IsTotalled :
    (stats : StatsData) (gs : List String) (m : Measurement)
    → IsTotalled m
    → IsTotalled (data_count_loop stats gs m)
unfolding data_count_loop
data_count_loop-IsTotalled stats [] m h = h
data_count_loop-IsTotalled stats (g ∷ gs) m h =
    data_count_loop-IsTotalled stats gs _ (cases (lookup g stats.data_count))
  where
    cases : (o : Option DataCountSample) → IsTotalled (add_data_count o m)
    cases none = h
    cases (some dc) = record {
      packets = h.packets;
      bytes = h.bytes;
      packets_bounded = h.packets_bounded;
      bytes_bounded = h.bytes_bounded;
      transports = h.transports;
    }

measure_data_count-IsTotalled :
    (stats : StatsData) (w : Endpoint) (m : Measurement)
    → IsTotalled m
    → IsTotalled (measure_data_count stats w m)
unfolding measure_data_count
measure_data_count-IsTotalled stats w m h =
    ground (arith, data_count_loop-IsTotalled stats (entity_guids w) m h)

measure_delivered-IsTotalled :
    (stats : StatsData) (w r : Endpoint) (m : Measurement)
    → IsTotalled m
    → IsTotalled (measure_delivered stats w r m)
unfolding measure_delivered
measure_delivered-IsTotalled stats w r m h = ground arith

-- Whatever the samples, the measurement of a pair is totalled: its packets and bytes are the sums
-- over its locators, none exceeds the count since the participant started, and it lists a
-- transport exactly when it lists a locator.
pub measure-IsTotalled :
    (stats : StatsData) (w r : Endpoint) → IsTotalled (measure stats w r new_measurement)
unfolding measure
measure-IsTotalled stats w r = measure_traffic-IsTotalled stats w r stats.traffic _ (
    measure_data_count-IsTotalled stats w _
      (measure_delivered-IsTotalled stats w r _ (ground arith)))
