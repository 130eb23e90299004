-- ===== src/Statistics/Slots/Observed.antt =====
-- What the samples of one counter leave in its entry.
use fastdds_transport_viz.Prelude.{
  false, ℕ, ◌+◌, suc, List, [], ◌∷◌, Option, none, some, length, ◌≡◌, refl, sym, ap, ◌∙◌, arith,
  ◌==◌,
}
use fastdds_transport_viz.Prelude.OrderedMap.Updates.{accumulate}
use fastdds_transport_viz.Model.Stats.{TrafficSample, DataCountSample}
use fastdds_transport_viz.Statistics.Slots.{next_slot, next_counter}

-- The last of the samples that follow `first`.
abbrev pub newest_sample : TrafficSample → List TrafficSample → TrafficSample
newest_sample first [] = first
newest_sample first (s ∷ ss) = newest_sample s ss

abbrev counted_slot : TrafficSample → (packets_first bytes_first samples : ℕ) → TrafficSample
counted_slot s p b n = record s { packets_first = p; bytes_first = b; samples = n }

-- What samples of one key should leave: the newest, with the counts of the oldest and their number.
abbrev pub observed : List TrafficSample → Option TrafficSample
observed [] = none
observed (first ∷ rest) =
    some (counted_slot (newest_sample first rest) first.packets first.bytes (suc (length rest)))

not_first : (n : ℕ) → (suc n == 0) ≡ false
not_first n = ground arith

succ_add : (n : ℕ) → suc (suc n) ≡ suc n + 1
succ_add n = omega arith

next_slot-later :
    (t s : TrafficSample) (p b n : ℕ)
    → next_slot t (some (counted_slot s p b (suc n))) ≡ counted_slot t p b (suc (suc n))
unfolding next_slot
next_slot-later t s p b n = rw (not_first n, sym (succ_add n)) refl

later_slots :
    (rest : List TrafficSample) (s : TrafficSample) (p b n : ℕ)
    → accumulate next_slot rest (some (counted_slot s p b (suc n)))
      ≡ some (counted_slot (newest_sample s rest) p b (suc n + length rest))
later_slots [] s p b n = ap (λ m. some (counted_slot s p b m)) (omega arith)
later_slots (t ∷ ts) s p b n =
    ap (λ slot. accumulate next_slot ts (some slot)) (next_slot-later t s p b n)
    ∙ later_slots ts t p b (suc n)
    ∙ ap (λ m. some (counted_slot (newest_sample t ts) p b m)) (omega arith)

pub accumulate-observed : (ss : List TrafficSample) → accumulate next_slot ss none ≡ observed ss
unfolding next_slot
accumulate-observed [] = refl
accumulate-observed (s ∷ ss) =
    later_slots ss s s.packets s.bytes 0
    ∙ ap (λ m. some (counted_slot (newest_sample s ss) s.packets s.bytes m)) (omega arith)

abbrev pub newest_count : ℕ → List ℕ → ℕ
newest_count first [] = first
newest_count first (c ∷ cs) = newest_count c cs

abbrev pub counted : List ℕ → Option DataCountSample
counted [] = none
counted (first ∷ rest) =
    some (record { first = first; last = newest_count first rest; samples = suc (length rest) })

next_counter-later :
    (c first last n : ℕ)
    → next_counter c (some (record { first = first; last = last; samples = suc n }))
      ≡ record { first = first; last = c; samples = suc (suc n) }
unfolding next_counter
next_counter-later c first last n = rw (not_first n, sym (succ_add n)) refl

later_counters :
    (counts : List ℕ) (first last n : ℕ)
    → accumulate next_counter counts (some (record { first = first; last = last; samples = suc n }))
      ≡ some (record {
        first = first;
        last = newest_count last counts;
        samples = suc n + length counts;
      })
later_counters [] first last n =
    ap (λ m. some (record { first = first; last = last; samples = m })) (omega arith)
later_counters (c ∷ cs) first last n =
    ap (λ slot. accumulate next_counter cs (some slot)) (next_counter-later c first last n)
    ∙ later_counters cs first c (suc n)
    ∙ ap (λ m. some (record { first = first; last = newest_count c cs; samples = m })) (omega arith)

pub accumulate-counted : (counts : List ℕ) → accumulate next_counter counts none ≡ counted counts
unfolding next_counter
accumulate-counted [] = refl
accumulate-counted (c ∷ cs) =
    later_counters cs c c 0
    ∙ ap (λ m. some (record { first = c; last = newest_count c cs; samples = m })) (omega arith)
