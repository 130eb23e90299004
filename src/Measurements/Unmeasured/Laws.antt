-- ===== src/Measurements/Unmeasured/Laws.antt =====
-- The counters of unmeasured pairs are ordered, count what they say, and are renewed by a repeat.
use fastdds_transport_viz.Prelude.{
  ◌+◌, ◌≤◌, String, Bool, true, false, ◌||◌, ◌&&◌, not, ◌≡◌, refl, ◌∙◌, sym, ap, List, [], ◌∷◌,
  ◌++◌, str_eq, if◌then◌else◌, ◌==◌, ltb, arith, all, count_if, keep_if, append-nil,
}
use fastdds_transport_viz.Model.Kinds.{Transport, transport_eq}
use fastdds_transport_viz.Model.Pairs.{Pair, TopicSummary}
use fastdds_transport_viz.Decision.Locators.{has_text}
use fastdds_transport_viz.Model.Stats.{StatsData}
use fastdds_transport_viz.Measurements.Overlay.{without_code}
use fastdds_transport_viz.Measurements.Unmeasured.{
  Tally, is_counted, tally_pair, tally_pairs, tally_topics, no_tally, renew, with_tally, lost_any,
  statistics_samples_were_lost, statistics_counter_samples_lost, note_unmeasured_pairs,
}

-- All pairs of the document, in one list.
abbrev pub all_pairs : List TopicSummary → List Pair
all_pairs [] = []
all_pairs (t ∷ ts) = t.pairs ++ all_pairs ts

tally_pairs-append :
    (lost : Bool) (xs ys : List Pair) (t : Tally)
    → tally_pairs lost (xs ++ ys) t ≡ tally_pairs lost ys (tally_pairs lost xs t)
unfolding tally_pairs
tally_pairs-append lost [] ys t = refl
tally_pairs-append lost (x ∷ xs) ys t = tally_pairs-append lost xs ys (tally_pair lost x t)

tally_topics-eq :
    (lost : Bool) (ts : List TopicSummary) (t : Tally)
    → tally_topics lost ts t ≡ tally_pairs lost (all_pairs ts) t
unfolding tally_topics tally_pairs
tally_topics-eq lost [] t = refl
tally_topics-eq lost (s ∷ ss) t =
    tally_topics-eq lost ss (tally_pairs lost s.pairs t)
    ∙ sym (tally_pairs-append lost s.pairs (all_pairs ss) t)

-- The warnings of a verdict under which no packets are expected.
abbrev excusing : List String
excusing =
    "qos-incompatible" ∷ "shm-ipc-namespace-split" ∷ "stats-writer-instance-limit-suspected" ∷ []

-- A text is none of a list.
abbrev is_none_of : List String → String → Bool
is_none_of codes c = all (λ d. not (str_eq c d)) codes

-- The pair was measured, a delivery is proven, and its samples must have left the process as
-- packets: it uses neither data-sharing nor an intra-process path, and no warning excuses it.
abbrev pub is_due : Pair → Bool
is_due p =
    p.measured.available
    && p.measured.delivered
    && not (transport_eq p.verdict.transport Transport.data_sharing)
    && all (is_none_of ("intra-process" ∷ [])) p.verdict.reasons
    && all (is_none_of excusing) p.verdict.warnings

-- The classes of such pairs, each a part of the one before.
abbrev pub is_unmeasured : Pair → Bool
is_unmeasured p = is_due p && p.measured.packets == 0

-- More samples were lost than on the latency topics alone, or some were rejected.
abbrev pub some_lost : StatsData → Bool
some_lost stats = ltb stats.samples_lost_latency stats.samples_lost || ltb 0 stats.samples_rejected

abbrev pub is_absent : Bool → Pair → Bool
is_absent lost p = is_unmeasured p && (not lost || p.measured.packets_total == 0)

one_code :
    (c : String) (codes : List String) → all (is_none_of (c ∷ [])) codes ≡ not (has_text c codes)
one_code c [] = refl
one_code c (d ∷ codes) = ground (arith, one_code c codes)

three_codes :
    (codes : List String)
    → all (is_none_of excusing) codes ≡ (
        not (has_text "qos-incompatible" codes)
        && not (has_text "shm-ipc-namespace-split" codes)
        && not (has_text "stats-writer-instance-limit-suspected" codes))
three_codes [] = refl
three_codes (d ∷ codes) = ground (arith, three_codes codes)

is_counted-is_due : (p : Pair) → is_counted p ≡ is_due p
unfolding is_counted
is_counted-is_due p =
    ground (arith, one_code "intra-process" p.verdict.reasons, three_codes p.verdict.warnings)

lost_any-some_lost : (stats : StatsData) → lost_any stats ≡ some_lost stats
unfolding statistics_counter_samples_lost
lost_any-some_lost stats = ground arith

tally_pairs-count :
    (lost : Bool) (ps : List Pair) (t : Tally)
    → ((tally_pairs lost ps t).delivered ≡ t.delivered + count_if is_due ps)
      × ((tally_pairs lost ps t).unmeasured ≡ t.unmeasured + count_if is_unmeasured ps)
      × ((tally_pairs lost ps t).absent ≡ t.absent + count_if (is_absent lost) ps)
unfolding tally_pairs tally_pair
tally_pairs-count lost [] t = (omega arith, omega arith, omega arith)
tally_pairs-count lost (p ∷ ps) t =
    let ih = tally_pairs-count lost ps (tally_pair lost p t) in
    let due = is_counted-is_due p in
    (ground (arith, ih.0, due), ground (arith, ih.1, due), ground (arith, ih.2, due))

count_mono :
    (p q : Pair → Bool) (ps : List Pair)
    → ((x : Pair) → p x ≡ true → q x ≡ true)
    → count_if p ps ≤ count_if q ps
count_mono p q [] h = omega arith
count_mono p q (x ∷ ps) h = ground (arith, count_mono p q ps h, h x)

-- The counters after `note_unmeasured_pairs`, whatever they held before: the measured pairs of the
-- document with a proven delivery that use no data-sharing and no intra-process path and have no
-- warning that excuses them, those of them without a packet in the window, and those of these that
-- no lost or rejected sample explains, or that never had a packet. Each number bounds the next.
pub note_unmeasured_pairs-counts :
    (topics : List TopicSummary) (stats : StatsData)
    → let after = note_unmeasured_pairs topics stats in
      (after.pairs_delivered ≡ count_if is_due (all_pairs topics))
      × (after.pairs_delivered_unmeasured ≡ count_if is_unmeasured (all_pairs topics))
      × (after.pairs_delivered_absent ≡ count_if (is_absent (some_lost stats)) (all_pairs topics))
      × (after.pairs_delivered_absent ≤ after.pairs_delivered_unmeasured)
      × (after.pairs_delivered_unmeasured ≤ after.pairs_delivered)
unfolding note_unmeasured_pairs
note_unmeasured_pairs-counts topics stats =
    let lost = some_lost stats in
    let same = lost_any-some_lost stats in
    let c = tally_pairs-count lost (all_pairs topics) no_tally in
    let e = ap (λ b. tally_topics b topics no_tally) same ∙ tally_topics-eq lost topics no_tally in
    let absent = ap (λ (t : Tally). t.absent) e ∙ c.2 in
    let unmeasured = ap (λ (t : Tally). t.unmeasured) e ∙ c.1 in
    let delivered = ap (λ (t : Tally). t.delivered) e ∙ c.0 in
    (
      omega arith,
      omega arith,
      omega arith,
      omega (
        arith,
        count_mono (is_absent lost) is_unmeasured (all_pairs topics) (λ x h. ground arith),
      ),
      omega (arith, count_mono is_unmeasured is_due (all_pairs topics) (λ x h. ground arith)),
    )

keep-append :
    (p : String → Bool) (xs ys : List String) → keep_if p (xs ++ ys) ≡ keep_if p xs ++ keep_if p ys
keep-append p [] ys = refl
keep-append p (x ∷ xs) ys = ground (arith, keep-append p xs ys)

keep_swap :
    (p q : String → Bool) (xs : List String) → keep_if p (keep_if q xs) ≡ keep_if q (keep_if p xs)
keep_swap p q [] = refl
keep_swap p q (x ∷ xs) = ground (arith, keep_swap p q xs)

keep_twice : (p : String → Bool) (xs : List String) → keep_if p (keep_if p xs) ≡ keep_if p xs
keep_twice p [] = refl
keep_twice p (x ∷ xs) = ground (arith, keep_twice p xs)

abbrev lost_code : String
lost_code = "stats-samples-lost"

abbrev absent_code : String
absent_code = "rtps-sent-absent"

abbrev code_if : Bool → String → List String
code_if test code = if test then code ∷ [] else []

-- The two codes at the end of a list that holds neither go away again.
strip_codes :
    (a b : Bool) (z : List String)
    → without_code lost_code z ≡ z
    → without_code absent_code z ≡ z
    → without_code absent_code
        (without_code lost_code ((z ++ code_if a lost_code) ++ code_if b absent_code))
      ≡ z
strip_codes true true z f g = simp (keep-append, f, g, append-nil)
strip_codes true false z f g = simp (keep-append, f, g, append-nil)
strip_codes false true z f g = simp (keep-append, f, g, append-nil)
strip_codes false false z f g = simp (f, g, append-nil)

renew_both :
    (a b : Bool) (ws : List String)
    → renew absent_code b (renew lost_code a ws)
      ≡ (without_code absent_code (without_code lost_code ws) ++ code_if a lost_code)
        ++ code_if b absent_code
renew_both true b ws =
    ap (λ (xs : List String). xs ++ code_if b absent_code)
      (keep-append (λ c. not (str_eq c absent_code)) (without_code lost_code ws)
        (code_if true lost_code))
renew_both false b ws =
    ap (λ (xs : List String). xs ++ code_if b absent_code)
      (keep-append (λ c. not (str_eq c absent_code)) (without_code lost_code ws)
        (code_if false lost_code))

renew_twice :
    (a b : Bool) (ws : List String)
    → renew absent_code b (renew lost_code a (renew absent_code b (renew lost_code a ws)))
      ≡ renew absent_code b (renew lost_code a ws)
renew_twice a b ws =
    let z = without_code absent_code (without_code lost_code ws) in
    let f : without_code lost_code z ≡ z =
      keep_swap _ _ (without_code lost_code ws) ∙ ap (without_code absent_code) (keep_twice _ ws) in
    let g : without_code absent_code z ≡ z = keep_twice _ (without_code lost_code ws) in
    renew_both a b (renew absent_code b (renew lost_code a ws))
    ∙ ap (λ (xs : List String). (xs ++ code_if a lost_code) ++ code_if b absent_code)
        (ap (λ (xs : List String). without_code absent_code (without_code lost_code xs))
            (renew_both a b ws)
          ∙ strip_codes a b z f g)
    ∙ sym (renew_both a b ws)

-- A second call on the same topics changes nothing, so the counters and the two codes may be
-- renewed on every frame.
pub note_unmeasured_pairs-twice :
    (topics : List TopicSummary) (stats : StatsData)
    → note_unmeasured_pairs topics (note_unmeasured_pairs topics stats)
      ≡ note_unmeasured_pairs topics stats
unfolding note_unmeasured_pairs statistics_samples_were_lost statistics_counter_samples_lost
note_unmeasured_pairs-twice topics stats =
    let counted = with_tally stats (tally_topics (lost_any stats) topics no_tally) in
    ap (λ (codes : List String). record counted { warnings = codes })
      (renew_twice (statistics_samples_were_lost counted) (ltb 0 counted.pairs_delivered_absent)
        stats.warnings)
