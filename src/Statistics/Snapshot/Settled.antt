-- ===== src/Statistics/Snapshot/Settled.antt =====
-- When the settle rule sees every announced writer heard.
use fastdds_transport_viz.Prelude.{
  ℕ, ◌+◌, ◌≤◌, String, Bool, true, false, ◌||◌, List, [], ◌∷◌, if◌then◌else◌, ◌==◌, ◌≡◌, ◌↔◌, refl,
  sym, ◌∙◌, subst, inl, inr, arith, Bool-cases, str_eq, length, length-append, all, any, count_if,
  collect, eq_iff, ltb,
}
use fastdds_transport_viz.Prelude.OrderedMap.{lookup, has_key}
use fastdds_transport_viz.Prelude.Keys.{text_key, number_key, str_eq_refl}
use fastdds_transport_viz.Prelude.Text.{text_append}
use fastdds_transport_viz.Observation.Ending.{stats_settled, stats_settle_min}
use fastdds_transport_viz.Statistics.Samples.{StatsReader}
use fastdds_transport_viz.Statistics.Listener.{
  Listener, new_listener, Callback, run_callbacks, TextSet, set_at,
}
use fastdds_transport_viz.Statistics.Listener.Matches.{holds, last_match, run_callbacks-holds}
use fastdds_transport_viz.Statistics.Observer.{Observer, new_observer, Event, run_events}
use fastdds_transport_viz.Statistics.Observer.Heard.{is_text, sent_writers, run_events-heard}
use fastdds_transport_viz.Statistics.Snapshot.{
  Settle, start_settle, count_writer, count_writers, settle_status,
}

abbrev is_heard : TextSet → String × Unit {0} → Bool
is_heard heard e = has_key e.0 heard

count_writer-counts :
    (topic : String) (heard : TextSet) (w : String) (out : Settle)
    → ((count_writer topic heard w out).announced ≡ out.announced + 1)
      × ((count_writer topic heard w out).heard ≡ out.heard + (if has_key w heard then 1 else 0))
      × (length (count_writer topic heard w out).unheard + (if has_key w heard then 1 else 0)
          ≡ length out.unheard + 1)
count_writer-counts topic heard w out = elim (Bool-cases (has_key w heard)) [
  | inl e ↦ rw e (refl, refl, refl)
  | inr e ↦ rw e (
    refl,
    omega arith,
    rw (length-append out.unheard (text_append topic (text_append " " w) ∷ [])) (omega arith),
  )
]

count_writers-cons :
    (topic : String) (heard : TextSet) (w : String) (here : Unit {0}) (ws : TextSet) (out : Settle)
    → count_writers topic heard ((w, here) ∷ ws) out
      ≡ count_writers topic heard ws (count_writer topic heard w out)
unfolding count_writers
count_writers-cons topic heard w here ws out = refl

-- The counts of the loop over the matched writers.
count_writers-counts :
    (topic : String) (heard matched : TextSet) (out : Settle)
    → ((count_writers topic heard matched out).announced ≡ out.announced + length matched)
      × ((count_writers topic heard matched out).heard
          ≡ out.heard + count_if (is_heard heard) matched)
      × (length (count_writers topic heard matched out).unheard + count_if (is_heard heard) matched
          ≡ length out.unheard + length matched)
unfolding count_writers
count_writers-counts topic heard [] out = (omega arith, omega arith, omega arith)
count_writers-counts topic heard ((w, here) ∷ ws) out =
    rw (count_writers-cons topic heard w here ws out) (
      omega (
        arith,
        count_writer-counts topic heard w out,
        count_writers-counts topic heard ws (count_writer topic heard w out),
      ))

count_if-length :
    {A : Type 0} (p : A → Bool) (xs : List A)
    → (count_if p xs ≤ length xs) × ((count_if p xs ≡ length xs) ↔ (all p xs ≡ true))
count_if-length p [] = (omega arith, ((λ h. refl), (λ h. refl)))
count_if-length p (x ∷ xs) = ground (arith, count_if-length p xs)

-- Every key of one set is in the other.
all-has_key :
    (heard matched : TextSet)
    → (all (is_heard heard) matched ≡ true)
      ↔ ((w : String) → has_key w matched ≡ true → has_key w heard ≡ true)
unfolding has_key
all-has_key heard [] = ((λ h w m. absurd (ground arith)), (λ f. refl))
all-has_key heard ((v, here) ∷ vs) =
    let (forward, back) = all-has_key heard vs in
    (
      λ h w m. elim (Bool-cases (str_eq v w)) [
        | inl e ↦ subst (λ x. has_key x heard ≡ true) ((eq_iff v w).0 e) (ground arith)
        | inr e ↦ forward (ground arith) w (ground arith)
      ],
      λ f. ground (arith, f v (ground (arith, str_eq_refl v)), back (λ w m. f w (ground arith))),
    )

settle_status-covers :
    (topic : String) (l : Listener) (o : Observer)
    → ((settle_status topic l o).announced
        ≡ (settle_status topic l o).heard + length (settle_status topic l o).unheard)
      × (((settle_status topic l o).announced ≡ (settle_status topic l o).heard) ↔ (
          (w : String)
          → holds StatsReader.rtps_sent w l.matched ≡ true
          → holds StatsReader.rtps_sent w o.heard ≡ true))
unfolding settle_status
settle_status-covers topic l o =
    let heard = set_at (lookup 0 o.heard) in
    let matched = set_at (lookup 0 l.matched) in
    let (announced, heard_ones, unheard) =
      count_writers-counts topic heard matched (start_settle o) in
    let (some_heard, all_heard) = count_if-length (is_heard heard) matched in
    let (forward, back) = all-has_key heard matched in
    (
      omega (arith, announced, heard_ones, unheard),
      (
        λ e. forward (all_heard.0 (omega (arith, announced, heard_ones, e))),
        λ f. omega (arith, announced, heard_ones, all_heard.1 (back f)),
      ),
    )

matched_from_start :
    (w : String) (start : ℕ) (cs : List Callback)
    → holds StatsReader.rtps_sent w (run_callbacks cs (new_listener start)).matched
      ≡ last_match StatsReader.rtps_sent w cs false
unfolding lookup has_key
matched_from_start w start cs = run_callbacks-holds StatsReader.rtps_sent w cs (new_listener start)

heard_from_start :
    (w : String) (es : List Event)
    → holds StatsReader.rtps_sent w (run_events es new_observer).heard
      ≡ any (is_text w) (collect sent_writers es)
unfolding lookup has_key
heard_from_start w es = run_events-heard w es new_observer ∙ ground arith

settle_status-heard :
    (topic : String) (start : ℕ) (cs : List Callback) (es : List Event)
    → let s =
        settle_status topic (run_callbacks cs (new_listener start)) (run_events es new_observer) in
      (s.announced ≡ s.heard + length s.unheard)
      × ((s.announced ≡ s.heard) ↔ (
          (w : String)
          → last_match StatsReader.rtps_sent w cs false ≡ true
          → any (is_text w) (collect sent_writers es) ≡ true))
settle_status-heard topic start cs es =
    let l = run_callbacks cs (new_listener start) in
    let o = run_events es new_observer in
    let (total, (forward, back)) = settle_status-covers topic l o in
    (
      total,
      (
        λ e w m. sym (heard_from_start w es) ∙ forward e w (matched_from_start w start cs ∙ m),
        λ f. back (λ w m. heard_from_start w es ∙ f w (sym (matched_from_start w start cs) ∙ m)),
      ),
    )

-- After any calls, a one-shot observation has settled exactly when discovery is quiet, five seconds
-- have passed, every writer whose last match with the RTPS_SENT reader was a gain has given it a
-- valid sample, the measurements have been quiet for the window, and a pair is measured unless no
-- writer is matched or no pair can be measured.
pub stats_settled-settle_status :
    (topic : String) (start : ℕ) (cs : List Callback) (es : List Event) (quiet : Bool)
    (elapsed measurable measured_quiet window : ℕ)
    → let s =
        settle_status topic (run_callbacks cs (new_listener start)) (run_events es new_observer) in
      (stats_settled quiet elapsed s.announced s.heard measurable s.measured_instances
          measured_quiet window
        ≡ true)
      ↔ ((quiet ≡ true)
          × (stats_settle_min ≤ elapsed)
          × ((w : String)
              → last_match StatsReader.rtps_sent w cs false ≡ true
              → any (is_text w) (collect sent_writers es) ≡ true)
          × (window ≤ measured_quiet)
          × ((s.announced == 0 || measurable == 0 || ltb 0 s.measured_instances) ≡ true))
unfolding stats_settled
stats_settled-settle_status topic start cs es quiet elapsed measurable measured_quiet window =
    let s =
      settle_status topic (run_callbacks cs (new_listener start)) (run_events es new_observer) in
    let (total, (forward, back)) = settle_status-heard topic start cs es in
    (
      λ h.
          (ground arith, ground arith, forward (ground (arith, total)), ground arith, ground arith),
      λ h.
          let (is_quiet, late, heard, settled, measured) = h in
          let all_heard = back heard in ground arith,
    )
