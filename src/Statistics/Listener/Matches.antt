-- ===== src/Statistics/Listener/Matches.antt =====
-- Which writers the listener holds matched.
use fastdds_transport_viz.Prelude.{
  ℕ, String, Bool, ◌&&◌, ◌||◌, not, List, [], ◌∷◌, if◌then◌else◌, ◌==◌, ==_iff, ◌≡◌, refl, inl, inr,
  arith, Bool-cases, str_eq,
}
use fastdds_transport_viz.Prelude.OrderedMap.{lookup, has_key, insert, lookup-insert}
use fastdds_transport_viz.Prelude.OrderedMap.Updates.{
  update_at, erase, has_key-insert, has_key-erase,
}
use fastdds_transport_viz.Prelude.Keys.{text_key, number_key}
use fastdds_transport_viz.Statistics.Samples.{StatsReader, reader_number}
use fastdds_transport_viz.Statistics.Listener.{
  Listener, TextSet, ReaderSets, set_at, MatchChange, Callback, sample_lost, sample_rejected,
  subscription_matched, requested_incompatible_qos, on_sample_lost, on_subscription_matched,
  statistics_late_join_window_open, on_callback, run_callbacks,
}

-- `sets[reader].count(text) > 0`
abbrev pub holds : StatsReader → String → ReaderSets → Bool
holds reader text sets = has_key text (set_at (lookup (reader_number reader) sets))

-- A change of the set of one reader.
module _ (reader other : StatsReader) (text : String) (change : TextSet → TextSet)
    (sets : ReaderSets) where
  pub holds-update_at :
      holds other text (update_at (reader_number reader) (λ o. change (set_at o)) sets) ≡ (
        if reader_number reader == reader_number other
        then has_key text (change (set_at (lookup (reader_number other) sets)))
        else holds other text sets)
  holds-update_at =
      rw
        (lookup-insert (reader_number reader) (reader_number other)
          (change (set_at (lookup (reader_number reader) sets))) sets)
        (elim (Bool-cases (reader_number reader == reader_number other)) [
          | inl e ↦ rw (e, (==_iff (reader_number reader) (reader_number other)).0 e) refl
          | inr e ↦ rw e refl
        ])

-- What the calls say of a reader and a writer: the last change of their match.
abbrev pub match_after : StatsReader → String → Callback → Bool → Bool
match_after reader writer (subscription_matched r w MatchChange.gained now) m =
    (reader_number r == reader_number reader && str_eq w writer) || m
match_after reader writer (subscription_matched r w MatchChange.lost_one now) m =
    not (reader_number r == reader_number reader && str_eq w writer) && m
match_after reader writer _ m = m

abbrev pub last_match : StatsReader → String → List Callback → Bool → Bool
last_match reader writer [] m = m
last_match reader writer (c ∷ cs) m = last_match reader writer cs (match_after reader writer c m)

on_sample_lost-matched :
    (reader : StatsReader) (now n : ℕ) (l : Listener)
    → (on_sample_lost reader now n l).matched ≡ l.matched
unfolding on_sample_lost statistics_late_join_window_open
on_sample_lost-matched reader now n l = ground arith

on_callback-holds :
    (reader : StatsReader) (writer : String) (c : Callback) (l : Listener)
    → holds reader writer (on_callback c l).matched
      ≡ match_after reader writer c (holds reader writer l.matched)
unfolding on_callback on_subscription_matched
on_callback-holds reader writer (sample_lost r now n) l = rw (on_sample_lost-matched r now n l) refl
on_callback-holds reader writer (sample_rejected n) l = refl
on_callback-holds reader writer (subscription_matched r w MatchChange.gained now) l =
    rw
      (
        holds-update_at r reader writer (insert w tt) l.matched,
        has_key-insert w writer tt (set_at (lookup (reader_number reader) l.matched)),
      )
      (ground arith)
on_callback-holds reader writer (subscription_matched r w MatchChange.lost_one now) l =
    rw
      (
        holds-update_at r reader writer (erase w) l.matched,
        has_key-erase w writer (set_at (lookup (reader_number reader) l.matched)),
      )
      (ground arith)
on_callback-holds reader writer (subscription_matched r w MatchChange.unchanged now) l = refl
on_callback-holds reader writer (requested_incompatible_qos n) l = refl

pub run_callbacks-holds :
    (reader : StatsReader) (writer : String) (cs : List Callback) (l : Listener)
    → holds reader writer (run_callbacks cs l).matched
      ≡ last_match reader writer cs (holds reader writer l.matched)
unfolding run_callbacks
run_callbacks-holds reader writer [] l = refl
run_callbacks-holds reader writer (c ∷ cs) l =
    rw (run_callbacks-holds reader writer cs (on_callback c l), on_callback-holds reader writer c l)
      refl
