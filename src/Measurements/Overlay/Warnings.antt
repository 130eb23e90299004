-- ===== src/Measurements/Overlay/Warnings.antt =====
-- The overlay adds warnings and takes none away.
use fastdds_transport_viz.Prelude.{
  String, Bool, true, false, not, List, [], ◌∷◌, ◌++◌, if◌then◌else◌, is_empty, ◌==◌, ◌&&◌, ◌≡◌,
  refl, ◌∙◌, sym, ap, append-nil, append_assoc,
}
use fastdds_transport_viz.Model.Kinds.{Transport, Confidence, transport_eq}
use fastdds_transport_viz.Model.Pairs.{Verdict, Measurement}
use fastdds_transport_viz.Decision.Locators.{has_text}
use fastdds_transport_viz.Decision.Steps.{add_warning}
use fastdds_transport_viz.Measurements.Overlay.{
  Surroundings, unmatched, unmatched_overlay, split_overlay, not_zero_copy, datasharing_overlay,
  silent_overlay, measured_overlay, transport_overlay, process_overlay, overlay, add_warning_if,
  add_measured_reasons, measured_matches, unstamped,
}

-- The warnings of `u` are those of `v`, and then some more.
pub record Extends (v u : Verdict) : Type 0 where
  pub extra : List String
  pub appended : u.warnings ≡ v.warnings ++ extra

by : {v u : Verdict} (extra : List String) → u.warnings ≡ v.warnings ++ extra → Extends v u
by xs e = record { extra = xs; appended = e }

same_warnings : (v u : Verdict) → u.warnings ≡ v.warnings → Extends v u
same_warnings v u e = by [] (e ∙ sym (append-nil v.warnings))

Extends-trans : {v u t : Verdict} → Extends v u → Extends u t → Extends v t
Extends-trans {v} h k = by (h.extra ++ k.extra) (
    k.appended
    ∙ ap (λ (ws : List String). ws ++ k.extra) h.appended
    ∙ append_assoc v.warnings h.extra k.extra)

if_Extends :
    {v u t : Verdict} (b : Bool) → Extends v u → Extends v t → Extends v (if b then u else t)
if_Extends true h k = h
if_Extends false h k = k

add_warning_if-Extends :
    (test : Bool) (new : String) (v : Verdict) → Extends v (add_warning_if test new v)
add_warning_if-Extends true new v = by (new ∷ []) refl
add_warning_if-Extends false new v = same_warnings v v refl

unmatched_overlay-Extends : (m : Measurement) (v : Verdict) → Extends v (unmatched_overlay m v)
unfolding unmatched_overlay
unmatched_overlay-Extends m v = add_warning_if-Extends m.delivered _ v

split_overlay-Extends : (m : Measurement) (v : Verdict) → Extends v (split_overlay m v)
unfolding split_overlay
split_overlay-Extends m v =
    let measured = add_measured_reasons m v in
    let proven = add_warning_if m.delivered "shm-ipc-namespace-split-but-delivered" measured in
    Extends-trans
      (Extends-trans (same_warnings v measured refl)
        (add_warning_if-Extends m.delivered _ measured))
      (add_warning_if-Extends _ _ proven)

datasharing_overlay-Extends :
    (around : Surroundings) (m : Measurement) (v : Verdict)
    → Extends v (datasharing_overlay around m v)
unfolding datasharing_overlay not_zero_copy
datasharing_overlay-Extends around m v =
    if_Extends (m.delivered && is_empty m.transports) (same_warnings v _ refl) (
      if_Extends (m.delivered && m.data_count_available)
        (if_Extends (not around.all_readers_datasharing) (same_warnings v _ refl) (
          if_Extends (m.data_submessages == 0) (same_warnings v _ refl)
            (by ("datasharing-not-used" ∷ []) refl)))
        (if_Extends (not (is_empty m.transports)) (same_warnings v _ refl)
          (same_warnings v _ refl)))

measured_overlay-Extends :
    (around : Surroundings) (m : Measurement) (v : Verdict)
    → Extends v (measured_overlay around m v)
unfolding measured_overlay
measured_overlay-Extends around m v =
    let reasoned = add_measured_reasons m v in
    let judged =
      if measured_matches m v
      then record reasoned { confidence = Confidence.certain }
      else add_warning "measured-transport-mismatch" reasoned in
    let delivered =
      add_warning_if (m.packets == 0 && m.delivered) "delivered-without-measured-traffic" judged in
    Extends-trans
      (if_Extends (measured_matches m v) (same_warnings v _ refl)
        (by ("measured-transport-mismatch" ∷ []) refl))
      (Extends-trans (add_warning_if-Extends _ _ judged) (add_warning_if-Extends _ _ delivered))

transport_overlay-Extends :
    (around : Surroundings) (m : Measurement) (v : Verdict)
    → Extends v (transport_overlay around m v)
unfolding transport_overlay silent_overlay
transport_overlay-Extends around m v = cases (transport_eq v.transport Transport.data_sharing)
  where
    cases :
        (b : Bool)
        → Extends v (elim b [
          | true ↦ datasharing_overlay around m v
          | false ↦
              if is_empty m.transports
              then silent_overlay around m v
              else measured_overlay around m v
        ])
    cases true = datasharing_overlay-Extends around m v
    cases false =
        if_Extends (is_empty m.transports) (by _ refl) (measured_overlay-Extends around m v)

process_overlay-Extends :
    (around : Surroundings) (m : Measurement) (v : Verdict) → Extends v (process_overlay around m v)
unfolding process_overlay
process_overlay-Extends around m v =
    if_Extends (has_text "intra-process" v.reasons)
      (if_Extends (m.packets == 0) (add_warning_if-Extends (not m.delivered) _ v) (
        Extends-trans (same_warnings v (unstamped v) refl)
          (transport_overlay-Extends around m (unstamped v))))
      (transport_overlay-Extends around m v)

-- The overlay appends warnings: those of the prediction stay, in their order, at the front.
pub overlay-Extends :
    (around : Surroundings) (m : Measurement) (v : Verdict) → Extends v (overlay around m v)
unfolding overlay
overlay-Extends around m v = if_Extends (unmatched v) (unmatched_overlay-Extends m v) (
    if_Extends (has_text "shm-ipc-namespace-split" v.warnings) (split_overlay-Extends m v) (
      if_Extends (not m.available) (by ("stats-not-enabled-on-writer" ∷ []) refl)
        (process_overlay-Extends around m v)))
