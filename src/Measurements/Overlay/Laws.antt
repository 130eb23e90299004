-- ===== src/Measurements/Overlay/Laws.antt =====
-- What a measurement may change in a verdict.
use fastdds_transport_viz.Prelude.{◌<◌, true, ◌≡◌, ◌⊎◌, inl, inr, arith, Bool-cases, ◌==◌}
use fastdds_transport_viz.Model.Kinds.{Transport, Confidence, transport_eq_iff}
use fastdds_transport_viz.Model.Pairs.{Verdict, Measurement}
use fastdds_transport_viz.Decision.Locators.{has_text}
use fastdds_transport_viz.Measurements.Overlay.{
  Surroundings, unmatched, unmatched_overlay, split_overlay, not_zero_copy, datasharing_overlay,
  silent_overlay, measured_overlay, transport_overlay, process_overlay, overlay, first_or_shm,
  measured_matches, unstamped,
}

-- The counters prove that the writer sent DATA although zero-copy was predicted for every reader.
pub record ContradictsZeroCopy (around : Surroundings) (m : Measurement) (v : Verdict)
    : Type 0 where
  pub predicted : v.transport ≡ Transport.data_sharing
  pub delivered : m.delivered ≡ true
  pub counted : m.data_count_available ≡ true
  pub alone : around.all_readers_datasharing ≡ true
  pub sent : 0 < m.data_submessages

abbrev KeepsTransport : Surroundings → Measurement → Verdict → Verdict → Type 0
KeepsTransport around m v u =
    (u.transport ≡ v.transport)
    ⊎ (ContradictsZeroCopy around m v × (u.transport ≡ first_or_shm m.transports))

datasharing_overlay-KeepsTransport :
    (around : Surroundings) (m : Measurement) (v : Verdict)
    → v.transport ≡ Transport.data_sharing
    → KeepsTransport around m v (datasharing_overlay around m v)
unfolding datasharing_overlay not_zero_copy
datasharing_overlay-KeepsTransport around m v e = ground arith

measured_overlay-transport :
    (around : Surroundings) (m : Measurement) (v : Verdict)
    → (measured_overlay around m v).transport ≡ v.transport
unfolding measured_overlay
measured_overlay-transport around m v = ground arith

transport_overlay-KeepsTransport :
    (around : Surroundings) (m : Measurement) (v : Verdict)
    → KeepsTransport around m v (transport_overlay around m v)
unfolding transport_overlay silent_overlay
transport_overlay-KeepsTransport around m v = ground (
  arith,
  datasharing_overlay-KeepsTransport around m v,
  measured_overlay-transport around m v,
  transport_eq_iff v.transport Transport.data_sharing,
)

unstamped-KeepsTransport :
    (around : Surroundings) (m : Measurement) (v u : Verdict)
    → KeepsTransport around m (unstamped v) u
    → KeepsTransport around m v u
unstamped-KeepsTransport around m v u (inl e) = inl e
unstamped-KeepsTransport around m v u (inr (c, e)) = inr (
  record {
    predicted = c.predicted;
    delivered = c.delivered;
    counted = c.counted;
    alone = c.alone;
    sent = c.sent;
  },
  e,
)

process_overlay-KeepsTransport :
    (around : Surroundings) (m : Measurement) (v : Verdict)
    → KeepsTransport around m v (process_overlay around m v)
unfolding process_overlay
process_overlay-KeepsTransport around m v = elim (Bool-cases (has_text "intra-process" v.reasons)) [
  | inl e ↦ elim (Bool-cases (m.packets == 0)) [
    | inl f ↦ rw (e, f) (inl (ground arith))
    | inr f ↦
        rw (e, f)
          (unstamped-KeepsTransport around m v (transport_overlay around m (unstamped v))
            (transport_overlay-KeepsTransport around m (unstamped v)))
  ]
  | inr e ↦ rw e (transport_overlay-KeepsTransport around m v)
]

-- A measurement leaves the predicted transport as it is, except where the writer's DATA counter
-- contradicts zero-copy: then the transport is the first that carried packets, or SHM.
pub overlay-transport :
    (around : Surroundings) (m : Measurement) (v : Verdict)
    → ((overlay around m v).transport ≡ v.transport)
      ⊎ (ContradictsZeroCopy around m v
          × ((overlay around m v).transport ≡ first_or_shm m.transports))
unfolding overlay unmatched_overlay split_overlay
overlay-transport around m v = elim (Bool-cases (unmatched v)) [
  | inl e ↦ rw e (inl (ground arith))
  | inr e ↦ elim (Bool-cases (has_text "shm-ipc-namespace-split" v.warnings)) [
    | inl f ↦ rw (e, f) (inl (ground arith))
    | inr f ↦ ground (arith, process_overlay-KeepsTransport around m v)
  ]
]

-- What makes a hedged verdict certain.
pub record IsProven (m : Measurement) (v : Verdict) : Type 0 where
  pub observed : m.available ≡ true
  pub proof : (m.delivered ≡ true) ⊎ (measured_matches m v ≡ true)

abbrev NeedsProof : Measurement → Verdict → Verdict → Type 0
NeedsProof m v u =
    v.confidence ≡ Confidence.likely
    → u.confidence ≡ Confidence.certain
    → (m.delivered ≡ true) ⊎ (measured_matches m v ≡ true)

transport_overlay-NeedsProof :
    (around : Surroundings) (m : Measurement) (v : Verdict)
    → NeedsProof m v (transport_overlay around m v)
unfolding transport_overlay silent_overlay measured_overlay datasharing_overlay not_zero_copy
transport_overlay-NeedsProof around m v = ground arith

process_overlay-NeedsProof :
    (around : Surroundings) (m : Measurement) (v : Verdict)
    → NeedsProof m v (process_overlay around m v)
unfolding process_overlay
process_overlay-NeedsProof around m v l c = elim (Bool-cases (has_text "intra-process" v.reasons)) [
  | inl e ↦ elim (Bool-cases (m.packets == 0)) [
    | inl f ↦ absurd (ground arith)
    | inr f ↦ transport_overlay-NeedsProof around m _ l (rw (e, f) at c)
  ]
  | inr e ↦ transport_overlay-NeedsProof around m v l (rw e at c)
]

-- A hedged verdict becomes certain only where the writer's participant publishes statistics and
-- a delivery to the reader or packets of the predicted transport are proven.
pub overlay-certain :
    (around : Surroundings) (m : Measurement) (v : Verdict)
    → v.confidence ≡ Confidence.likely
    → (overlay around m v).confidence ≡ Confidence.certain
    → IsProven m v
unfolding overlay unmatched_overlay split_overlay
overlay-certain around m v l c = elim (Bool-cases (unmatched v)) [
  | inl e ↦ absurd (ground arith)
  | inr e ↦ elim (Bool-cases (has_text "shm-ipc-namespace-split" v.warnings)) [
    | inl f ↦ absurd (ground arith)
    | inr f ↦ elim (Bool-cases m.available) [
      | inl a ↦ record {
        observed = a;
        proof = process_overlay-NeedsProof around m v l (ground arith);
      }
      | inr a ↦ absurd (ground arith)
    ]
  ]
]
