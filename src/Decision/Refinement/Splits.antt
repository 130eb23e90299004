-- ===== src/Decision/Refinement/Splits.antt =====
-- Tests against the statements that they decide, and the evidence of a split.
use fastdds_transport_viz.Prelude.{
  String, Bool, true, false, ◌&&◌, ◌≡◌, ◌≢◌, ◌↔◌, inl, inr, refl, [], ◌∷◌, List, if◌then◌else◌,
  ◌++◌, is_empty, is_empty-eq, Bool-cases,
}
use fastdds_transport_viz.Model.Endpoints.{Endpoint}
use fastdds_transport_viz.Decision.Split.{ipc_split_reasons, datasharing_split_reasons}
use fastdds_transport_viz.Decision.Steps.{
  speaks_shm, datasharing_evidence, same_host_locators_hidden,
}
use fastdds_transport_viz.Decision.Rules.{DataSharingSplit}
use fastdds_transport_viz.Decision.Rules.Splits.{IpcSplit-iff, SegmentSplit-iff}
use fastdds_transport_viz.Decision.Rules.Tests.{BothShm-iff}

-- A test that decides a statement fails where the statement does.
pub false_of : {P : Type 0} (b : Bool) → (b ≡ true) ↔ P → (¬ P) → b ≡ false
false_of b d n = elim (Bool-cases b) [ inl e ↦ absurd (n (d.0 e)) | inr e ↦ e ]

pub refuted : {P : Type 0} (b : Bool) → (b ≡ true) ↔ P → b ≡ false → ¬ P
refuted b d e p = cc (d.1 p)

pub not_empty-append : (xs ys : List String) → is_empty xs ≡ false → is_empty (xs ++ ys) ≡ false
not_empty-append [] ys h = cc
not_empty-append (x ∷ xs) ys h = refl

pub not_empty-append_right :
    (xs ys : List String) → is_empty ys ≡ false → is_empty (xs ++ ys) ≡ false
not_empty-append_right [] ys h = h
not_empty-append_right (x ∷ xs) ys h = refl

-- The same, for a test whose failure decides the statement.
pub true_of_false : {P : Type 0} (b : Bool) → (b ≡ false) ↔ P → (¬ P) → b ≡ true
true_of_false b d n = elim (Bool-cases b) [ inl e ↦ e | inr e ↦ absurd (n (d.0 e)) ]

pub not_empty_of : (xs : List String) → xs ≢ [] → is_empty xs ≡ false
not_empty_of [] n = absurd (n refl)
not_empty_of (x ∷ xs) n = refl

pub datasharing_split_iff :
    (w r : Endpoint) → (is_empty (datasharing_evidence w r) ≡ false) ↔ DataSharingSplit w r
unfolding datasharing_evidence
datasharing_split_iff w r = (
  (λ h. elim (Bool-cases (speaks_shm w && speaks_shm r)) [
    | inl both ↦ elim (Bool-cases (is_empty (ipc_split_reasons w r))) [
      | inl e ↦ inr ((SegmentSplit-iff w r).0 (is_empty_of_append both e h))
      | inr e ↦ inl ((BothShm-iff w r).0 both, (IpcSplit-iff w r).0 e)
    ]
    | inr n ↦ inr ((SegmentSplit-iff w r).0 (rw n at h))
  ]),
  (λ s. elim s [
    | inl (b, ipc) ↦ rw ((BothShm-iff w r).1 b) (not_empty-append _ _ ((IpcSplit-iff w r).1 ipc))
    | inr seg ↦ not_empty-append_right _ _ ((SegmentSplit-iff w r).1 seg)
  ]),
)
  where
    is_empty_of_append :
        (speaks_shm w && speaks_shm r) ≡ true
        → is_empty (ipc_split_reasons w r) ≡ true
        → is_empty (
            (if speaks_shm w && speaks_shm r then ipc_split_reasons w r else [])
            ++ datasharing_split_reasons w r)
          ≡ false
        → is_empty (datasharing_split_reasons w r) ≡ false
    is_empty_of_append both e h = rw (both, is_empty-eq _ e) at h

pub not_hidden_elsewhere : (w r : Endpoint) → same_host_locators_hidden false w r ≡ false
unfolding same_host_locators_hidden
not_hidden_elsewhere w r = refl
