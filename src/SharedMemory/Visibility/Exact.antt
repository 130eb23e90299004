-- ===== src/SharedMemory/Visibility/Exact.antt =====
-- When a participant's memory is visible, and when it is not.
use fastdds_transport_viz.Prelude.{
  ℕ, Bool, true, false, ◌&&◌, ◌||◌, not, List, [], ◌∷◌, if◌then◌else◌, any, all, ◌≡◌, refl, arith,
}
use fastdds_transport_viz.Prelude.OrderedMap.{lookup}
use fastdds_transport_viz.Prelude.Keys.{number_key}
use fastdds_transport_viz.Model.Kinds.{ShmVisibility}
use fastdds_transport_viz.Model.Memory.{ShmInfo}
use fastdds_transport_viz.SharedMemory.Scan.{has_shm_port}
use fastdds_transport_viz.SharedMemory.Visibility.{
  announced_once, visit_ports, participant_shm_visibility,
}

-- A port that proves another namespace, one that is held here, and one that proves this namespace.
abbrev pub is_elsewhere : ShmInfo → ℕ → Bool
is_elsewhere info p =
    has_shm_port p info.checked_ports
    && has_shm_port p info.missing_ports
    && not (has_shm_port p info.unknown_ports)

abbrev pub is_held_here : ShmInfo → ℕ → Bool
is_held_here info p = has_shm_port p info.checked_ports && not (has_shm_port p info.missing_ports)

abbrev pub is_proof : List ℕ → ShmInfo → List (ℕ × ℕ) → ℕ → Bool
is_proof proof_ports info per_port p =
    is_held_here info p && has_shm_port p proof_ports && announced_once (lookup p per_port)

abbrev pub verdict_of : Bool → Bool → ShmVisibility
verdict_of elsewhere here =
    if elsewhere
    then ShmVisibility.not_visible
    else if here
    then ShmVisibility.visible
    else ShmVisibility.unprobed

visit_ports-verdict :
    (proof_ports : List ℕ) (info : ShmInfo) (per_port : List (ℕ × ℕ)) (ports : List ℕ)
    (all_held proven : Bool)
    → visit_ports proof_ports info per_port ports all_held proven
      ≡ verdict_of (any (is_elsewhere info) ports) (
          (all_held && all (is_held_here info) ports)
          && (proven || any (is_proof proof_ports info per_port) ports))
unfolding visit_ports
visit_ports-verdict proof_ports info per_port [] all_held proven = ground arith
visit_ports-verdict proof_ports info per_port (p ∷ ps) all_held proven = ground (
  arith,
  visit_ports-verdict proof_ports info per_port ps false proven,
  visit_ports-verdict proof_ports info per_port ps all_held
      (proven || announced_once (lookup p per_port)),
  visit_ports-verdict proof_ports info per_port ps all_held proven,
)

-- A participant is not visible exactly when one of its ports was checked, is missing and is not
-- undecided; otherwise it is visible exactly when it has ports, all of them were checked and are
-- held here, and one of them is a proof port that no other participant announces.
pub participant_shm_visibility-verdict :
    (ports proof_ports : List ℕ) (info : ShmInfo) (per_port : List (ℕ × ℕ))
    → participant_shm_visibility ports proof_ports info per_port
      ≡ verdict_of
          (any (is_elsewhere info) ports)
          (all (is_held_here info) ports && any (is_proof proof_ports info per_port) ports)
unfolding participant_shm_visibility visit_ports
participant_shm_visibility-verdict [] proof_ports info per_port = refl
participant_shm_visibility-verdict (p ∷ ps) proof_ports info per_port =
    visit_ports-verdict proof_ports info per_port (p ∷ ps) true false
