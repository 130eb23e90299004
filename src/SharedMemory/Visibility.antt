-- ===== src/SharedMemory/Visibility.antt =====
-- shm_info.cpp, `participant_shm_visibility`: whether a participant uses the tool's shared memory.
pub mod Exact
pub mod Scanned
use fastdds_transport_viz.Prelude.{
  ℕ, Bool, true, false, ◌&&◌, ◌||◌, not, List, [], ◌∷◌, Option, none, some, if◌then◌else◌, leb,
  is_empty,
}
use fastdds_transport_viz.Prelude.OrderedMap.{lookup}
use fastdds_transport_viz.Prelude.Keys.{number_key}
use fastdds_transport_viz.Model.Kinds.{ShmVisibility}
use fastdds_transport_viz.Model.Memory.{ShmInfo}
use fastdds_transport_viz.SharedMemory.Scan.{has_shm_port}

-- At most one participant announces the port.
abbrev pub announced_once : Option ℕ → Bool
announced_once none = true
announced_once (some n) = leb n 1

-- The loop, with the two variables.
pub visit_ports :
    (proof_ports : List ℕ)
    → ShmInfo
    → (participants_per_port : List (ℕ × ℕ)) → List ℕ
    → (all_held proven : Bool) → ShmVisibility
visit_ports proof_ports info per_port [] all_held proven =
    if all_held && proven then ShmVisibility.visible else ShmVisibility.unprobed
visit_ports proof_ports info per_port (port ∷ ports) all_held proven =
    let unheld = visit_ports proof_ports info per_port ports false proven in
    let once = announced_once (lookup port per_port) in
    let proof = visit_ports proof_ports info per_port ports all_held (proven || once) in
    let rest = visit_ports proof_ports info per_port ports all_held proven in
    if not (has_shm_port port info.checked_ports)
    then unheld
    else if has_shm_port port info.missing_ports
    then if not (has_shm_port port info.unknown_ports) then ShmVisibility.not_visible else unheld
    else if has_shm_port port proof_ports
    then proof
    else rest

pub participant_shm_visibility :
    (ports proof_ports : List ℕ) → ShmInfo → (participants_per_port : List (ℕ × ℕ)) → ShmVisibility
participant_shm_visibility ports proof_ports info per_port =
    visit_ports proof_ports info per_port ports (not (is_empty ports)) false
