-- ===== src/SharedMemory/Visibility/Scanned.antt =====
-- What a verdict says of the directory that was scanned.
use fastdds_transport_viz.Prelude.{
  ℕ, String, Bool, true, false, ◌&&◌, not, List, [], ◌∷◌, some, any, all, keep_if, ◌==◌, ==_iff,
  ◌≡◌, ◌↔◌, refl, sym, ap, ap₂, ◌∙◌, any-ext, all-ext, inl, inr, arith, Bool-cases,
}
use fastdds_transport_viz.Prelude.OrderedMap.{lookup}
use fastdds_transport_viz.Prelude.Keys.{number_key}
use fastdds_transport_viz.Model.Kinds.{ShmVisibility}
use fastdds_transport_viz.Model.Memory.{ShmInfo}
use fastdds_transport_viz.SharedMemory.Scan.{System, Capacity, ShmScanInput, has_shm_port, scan_shm}
use fastdds_transport_viz.SharedMemory.Scan.Ports.{is_absent, scan_shm-missing}
use fastdds_transport_viz.SharedMemory.Visibility.{announced_once, participant_shm_visibility}
use fastdds_transport_viz.SharedMemory.Visibility.Exact.{
  is_elsewhere, is_held_here, is_proof, verdict_of, participant_shm_visibility-verdict,
}

has_shm_port-keep_if :
    (p : ℕ) (test : ℕ → Bool) (ports : List ℕ)
    → has_shm_port p (keep_if test ports) ≡ (test p && has_shm_port p ports)
has_shm_port-keep_if p test [] = ground arith
has_shm_port-keep_if p test (q ∷ qs) = elim (Bool-cases (q == p)) [
  | inl e ↦ ground (arith, has_shm_port-keep_if p test qs, ap test ((==_iff q p).0 e))
  | inr e ↦ ground (arith, has_shm_port-keep_if p test qs)
]

-- The port was announced by a node on the tool's host and is held here: the directory has a port
-- file of its number whose lock a living process holds, and it is none of the tool's own.
abbrev pub is_live : System → String → ShmScanInput → List String → ℕ → Bool
is_live system path input names p =
    has_shm_port p input.node_ports && not (is_absent system path input names p)

abbrev pub is_gone : System → String → ShmScanInput → List String → ℕ → Bool
is_gone system path input names p =
    has_shm_port p input.node_ports && is_absent system path input names p

held_not_elsewhere :
    (info : ShmInfo) (ports : List ℕ)
    → all (is_held_here info) ports ≡ true
    → any (is_elsewhere info) ports ≡ false
held_not_elsewhere info [] h = refl
held_not_elsewhere info (p ∷ ps) h = ground (arith, held_not_elsewhere info ps)

elsewhere_missing :
    (info : ShmInfo) (ports : List ℕ)
    → any (is_elsewhere info) ports ≡ true
    → any (λ p. has_shm_port p info.checked_ports && has_shm_port p info.missing_ports) ports ≡ true
elsewhere_missing info [] h = ground arith
elsewhere_missing info (p ∷ ps) h = ground (arith, elsewhere_missing info ps)

verdict_visible :
    (elsewhere here : Bool)
    → (here ≡ true → elsewhere ≡ false)
    → (verdict_of elsewhere here ≡ ShmVisibility.visible) ↔ (here ≡ true)
verdict_visible elsewhere here h = ground arith

verdict_not_visible :
    (elsewhere here : Bool)
    → verdict_of elsewhere here ≡ ShmVisibility.not_visible
    → elsewhere ≡ true
verdict_not_visible elsewhere here h = ground arith

module _ (system : System) (path : String) (input : ShmScanInput) (c : Capacity)
    (names : List String) (has_capacity : system.statvfs ≡ some c)
    (has_names : system.readdir ≡ some names) where
  held-is_live :
      (p : ℕ) → is_held_here (scan_shm system path input) p ≡ is_live system path input names p
  held-is_live p =
      let (checked, missing) = scan_shm-missing system path input c names has_capacity has_names in
      rw
        (
          checked,
          missing,
          has_shm_port-keep_if p (is_absent system path input names) input.node_ports,
        )
        (ground arith)

  missing-is_gone :
      (p : ℕ)
      → (has_shm_port p (scan_shm system path input).checked_ports
          && has_shm_port p (scan_shm system path input).missing_ports)
        ≡ is_gone system path input names p
  missing-is_gone p =
      let (checked, missing) = scan_shm-missing system path input c names has_capacity has_names in
      rw
        (
          checked,
          missing,
          has_shm_port-keep_if p (is_absent system path input names) input.node_ports,
        )
        (ground arith)

  held_and_proof :
      (ports proof_ports : List ℕ) (per_port : List (ℕ × ℕ))
      → (all (is_held_here (scan_shm system path input)) ports
          && any (is_proof proof_ports (scan_shm system path input) per_port) ports)
        ≡ (all (is_live system path input names) ports
            && any
                (λ p.
                  is_live system path input names p
                  && has_shm_port p proof_ports
                  && announced_once (lookup p per_port))
                ports)
  held_and_proof ports proof_ports per_port =
      ap₂ (λ a b. a && b) (all-ext _ _ ports held-is_live)
        (any-ext _ _ ports (λ p.
          ap (λ b. b && has_shm_port p proof_ports && announced_once (lookup p per_port))
            (held-is_live p)))

-- After a scan of a directory that could be listed, a participant's memory is visible exactly when
-- each of its ports was announced to the scan, is none of the tool's own and has a port file whose
-- lock is held, and one of them is a proof port that no other participant announces; it is not
-- visible only if one of its ports is the tool's own or has no port file with a held lock.
pub scan_shm-visibility :
    (system : System) (path : String) (input : ShmScanInput) (c : Capacity) (names : List String)
    (ports proof_ports : List ℕ) (per_port : List (ℕ × ℕ))
    → system.statvfs ≡ some c
    → system.readdir ≡ some names
    → let verdict =
        participant_shm_visibility ports proof_ports (scan_shm system path input) per_port in
      ((verdict ≡ ShmVisibility.visible) ↔ (
        (all (is_live system path input names) ports
          && any
              (λ p.
                is_live system path input names p
                && has_shm_port p proof_ports
                && announced_once (lookup p per_port))
              ports)
        ≡ true))
      × (verdict ≡ ShmVisibility.not_visible → any (is_gone system path input names) ports ≡ true)
scan_shm-visibility system path input c names ports proof_ports per_port has_capacity has_names =
    let info = scan_shm system path input in
    let here =
      held_and_proof system path input c names has_capacity has_names ports proof_ports per_port in
    let (forward, back) =
      verdict_visible (any (is_elsewhere info) ports)
        (all (is_held_here info) ports && any (is_proof proof_ports info per_port) ports)
        (λ h. held_not_elsewhere info ports (ground arith)) in
    rw (participant_shm_visibility-verdict ports proof_ports info per_port) (
      (λ v. sym here ∙ forward v, λ h. back (here ∙ h)),
      λ v.
          sym (any-ext _ _ ports (missing-is_gone system path input c names has_capacity has_names))
          ∙ elsewhere_missing info ports (verdict_not_visible _ _ v),
    )
