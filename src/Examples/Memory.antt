-- ===== src/Examples/Memory.antt =====
-- Witnesses and tests for the shared memory: a directory with a port file that a process holds, a
-- stale segment and the lock files.
use fastdds_transport_viz.Prelude.{
  String, true, ◌&&◌, List, [], ◌∷◌, none, some, any, all, if◌then◌else◌, str_eq, ◌≡◌, ◌↔◌, refl,
}
use fastdds_transport_viz.Prelude.OrderedMap.{lookup}
use fastdds_transport_viz.Prelude.Keys.{number_key}
use fastdds_transport_viz.Model.Kinds.{ShmVisibility}
use fastdds_transport_viz.SharedMemory.Files.{
  decimal, datasharing_segment_name, held_port_locks, held_ports, after_prefix, is_digits, is_hex,
}
use fastdds_transport_viz.SharedMemory.Scan.{
  System, Capacity, Opened, Locking, ShmScanInput, has_shm_port, scan_shm, probe_lock, list_port,
  list_file, list_entry, list_entries, check_ports, judge,
}
use fastdds_transport_viz.SharedMemory.Scan.Counts.{IsBounded}
use fastdds_transport_viz.SharedMemory.Scan.Warnings.{warnings_for, scan_shm-IsBounded}
use fastdds_transport_viz.SharedMemory.Visibility.{announced_once, participant_shm_visibility}
use fastdds_transport_viz.SharedMemory.Visibility.Scanned.{is_live, is_gone, scan_shm-visibility}

abbrev some_capacity : Capacity
some_capacity = record { f_blocks = 1000; f_bavail = 900; f_frsize = 65536 }

abbrev some_names : List String
some_names = "fastrtps_port7413" ∷ "fastrtps_port7413_el" ∷ "fastrtps_0a1b" ∷ "other" ∷ []

-- Every file is a regular one with a lock; only the lock of the port is held.
abbrev some_system : System
some_system = record {
  statvfs = some some_capacity;
  readdir = some some_names;
  regular_size = λ file. some 4096;
  open_file = λ file. Opened.descriptor;
  flock = λ file.
      if str_eq file "/dev/shm/fastrtps_port7413_el" then Locking.would_block else Locking.locked;
}

abbrev some_input : ShmScanInput
some_input = record {
  node_ports = 7413 ∷ 7415 ∷ [];
  own_ports = [];
  other_host_participants = 0;
  datasharing_writers = [];
  datasharing_readers = [];
}

one_stale_segment : (scan_shm some_system "/dev/shm" some_input).stale_segments ≡ 1
unfolding scan_shm probe_lock list_port list_file list_entry list_entries check_ports judge
    after_prefix is_digits is_hex decimal
one_stale_segment = refl

port_name : decimal 7413 ≡ "7413"
unfolding decimal
port_name = refl

segment_name :
    datasharing_segment_name (1 ∷ 15 ∷ 0 ∷ 0 ∷ 0 ∷ 0 ∷ 0 ∷ 1 ∷ 0 ∷ 0 ∷ 0 ∷ 0 ∷ 0 ∷ 0 ∷ 1 ∷ 3 ∷ [])
    ≡ "fast_datasharing_01.0f.00.00.00.00.00.01.00.00.00.00_0.0.1.3"
unfolding datasharing_segment_name
segment_name = refl

held_descriptors :
    held_port_locks (
      some (
        some "/dev/shm/fastdds_port7413_el (deleted)"
        ∷ some "/dev/shm/fastdds_port7415_el"
        ∷ none
        ∷ []))
    ≡ some (7415 ∷ [])
unfolding held_port_locks held_ports after_prefix is_digits
held_descriptors = refl

scan_shm-IsBounded_example :
    IsBounded (scan_shm some_system "/dev/shm" some_input)
    × ((scan_shm some_system "/dev/shm" some_input).warnings
        ≡ warnings_for (scan_shm some_system "/dev/shm" some_input))
scan_shm-IsBounded_example =
    scan_shm-IsBounded some_system "/dev/shm" some_input some_capacity some_names refl refl

scan_shm-visibility_example :
    let verdict =
      participant_shm_visibility
        (7413 ∷ [])
        (7413 ∷ [])
        (scan_shm some_system "/dev/shm" some_input)
        [] in
    ((verdict ≡ ShmVisibility.visible) ↔ (
      (all (is_live some_system "/dev/shm" some_input some_names) (7413 ∷ [])
        && any
            (λ p.
              is_live some_system "/dev/shm" some_input some_names p
              && has_shm_port p (7413 ∷ [])
              && announced_once (lookup p []))
            (7413 ∷ []))
      ≡ true))
    × (verdict ≡ ShmVisibility.not_visible
        → any (is_gone some_system "/dev/shm" some_input some_names) (7413 ∷ []) ≡ true)
scan_shm-visibility_example =
    scan_shm-visibility some_system "/dev/shm" some_input some_capacity some_names (7413 ∷ [])
      (7413 ∷ []) [] refl refl
