-- ===== src/SharedMemory/Scan.antt =====
-- shm_info.cpp, `scan_shm`. What the operating system answers is an argument: the file system, the
-- listing of the directory, the files and their locks. A set of texts is a list that is read by
-- membership alone.
pub mod Ports
pub mod Counts
pub mod Warnings
use fastdds_transport_viz.Prelude.{
  ℕ, ◌+◌, ◌-◌, ◌*◌, ◌%◌, ◌^◌, String, Bool, true, false, ◌&&◌, ◌||◌, not, List, [], ◌∷◌, ◌++◌,
  Option, none, some, if◌then◌else◌, ltb, leb, ◌==◌, any, is_empty, length,
}
use fastdds_transport_viz.Prelude.OrderedMap.{lookup, insert}
use fastdds_transport_viz.Prelude.Keys.{text_key, number_key}
use fastdds_transport_viz.Prelude.Text.{text_append, is_some}
use fastdds_transport_viz.Model.Kinds.{PortLock}
use fastdds_transport_viz.Model.Memory.{ShmInfo, new_shm_info}
use fastdds_transport_viz.Decision.Locators.{has_text}
use fastdds_transport_viz.SharedMemory.Files.{
  segment_prefixes, port_prefixes, sem_prefixes, datasharing_prefix, lock_suffix, starts_with,
  after_prefix, ends_with, is_hex, is_digits, decimal,
}

pub data LockState : Type 0 where
  held free missing unknown : LockState

-- `open`: a descriptor, ENOENT or another error; `flock`: the lock, EWOULDBLOCK or another error.
pub data Opened : Type 0 where
  descriptor no_entry other_error : Opened

pub data Locking : Type 0 where
  locked would_block other_error : Locking

pub record Capacity : Type 0 where
  pub f_blocks : ℕ
  pub f_bavail : ℕ
  pub f_frsize : ℕ

-- The answers of the system; `regular_size` is the size of a regular file that can be read.
pub record System : Type 0 where
  pub statvfs : Option Capacity
  pub readdir : Option (List String)
  pub regular_size : String → Option ℕ
  pub open_file : String → Opened
  pub flock : String → Locking

pub record ShmScanInput : Type 0 where
  pub node_ports : List ℕ
  pub own_ports : List ℕ
  pub other_host_participants : ℕ
  pub datasharing_writers : List (String × String)
  pub datasharing_readers : List (String × String)

abbrev lock_of : Locking → LockState
lock_of Locking.locked = LockState.free
lock_of Locking.would_block = LockState.held
lock_of Locking.other_error = LockState.unknown

unfoldable pub probe_lock : System → String → LockState
probe_lock system lock_path = elim (system.open_file lock_path) [
  | Opened.no_entry ↦ LockState.missing
  | Opened.other_error ↦ LockState.unknown
  | Opened.descriptor ↦ lock_of (system.flock lock_path)
]

-- The variables of the loop over the directory.
pub record Listing : Type 0 where
  pub info : ShmInfo
  pub ports_held : List String
  pub ports_undecided : List String
  pub port_states : List (String × LockState)

abbrev pub is_free : LockState → Bool
is_free LockState.free = true
is_free _ = false

abbrev pub is_held : LockState → Bool
is_held LockState.held = true
is_held _ = false

abbrev pub is_undecided : LockState → Bool
is_undecided LockState.free = true
is_undecided LockState.unknown = true
is_undecided _ = false

abbrev pub one_if : Bool → ℕ
one_if b = if b then 1 else 0

abbrev pub add_if : Bool → String → List String → List String
add_if b t ts = if b then t ∷ ts else ts

-- A port file, by the text of its number.
unfoldable pub list_port : LockState → String → Listing → Listing
list_port st port l = if not (is_digits port) then l else record {
  info = record l.info {
    ports = l.info.ports + 1;
    stale_ports = l.info.stale_ports + one_if (is_free st);
  };
  ports_held = add_if (is_held st) port l.ports_held;
  ports_undecided = add_if (is_undecided st) port l.ports_undecided;
  port_states = insert port st l.port_states;
}

-- A segment, by what follows its prefix.
abbrev pub list_segment : LockState → String → ShmInfo → ShmInfo
list_segment st rest info = if not (is_hex rest) then info else record info {
  segments = info.segments + 1;
  stale_segments = info.stale_segments + one_if (is_free st);
}

abbrev pub list_datasharing : ShmScanInput → String → ℕ → ShmInfo → ShmInfo
list_datasharing input name size info = elim (lookup name input.datasharing_readers) [
  | some reader ↦ record info {
    datasharing_notifications = info.datasharing_notifications + 1;
    datasharing_notification_readers = reader ∷ info.datasharing_notification_readers;
  }
  | none ↦ elim (lookup name input.datasharing_writers) [
    | none ↦ record info {
      datasharing_histories = info.datasharing_histories + 1;
      datasharing_unmatched = info.datasharing_unmatched + 1;
    }
    | some writer ↦ record info {
      datasharing_histories = info.datasharing_histories + 1;
      datasharing_by_writer = insert writer size info.datasharing_by_writer;
    }
  ]
]

abbrev pub set_info : (ShmInfo → ShmInfo) → Listing → Listing
set_info change l = record l { info = change l.info }

abbrev pub count_bytes : ℕ → ShmInfo → ShmInfo
count_bytes size info = record info { fastdds_bytes = (info.fastdds_bytes + size) % 2 ^ 64 }

abbrev pub fastdds_file : String → Bool
fastdds_file name =
    is_some (after_prefix segment_prefixes name)
    || starts_with name datasharing_prefix
    || is_some (after_prefix sem_prefixes name)

-- A regular Fast DDS file that is no lock file.
unfoldable pub list_file : ShmScanInput → LockState → String → ℕ → Listing → Listing
list_file input st name size l = elim (after_prefix port_prefixes name) [
  | some port ↦ list_port st port l
  | none ↦ elim (after_prefix segment_prefixes name) [
    | some rest ↦ set_info (list_segment st rest) l
    | none ↦
        if starts_with name datasharing_prefix
        then set_info (list_datasharing input name size) l
        else l
  ]
]

-- One round of the loop.
unfoldable pub list_entry : System → ShmScanInput → String → String → Listing → Listing
list_entry system input path name l =
    let full = text_append path (text_append "/" name) in
    if not (fastdds_file name) then l else elim (system.regular_size full) [
      | none ↦ l
      | some size ↦
          let counted = set_info (count_bytes size) l in
          if ends_with name lock_suffix
          then counted
          else list_file input (probe_lock system (text_append full lock_suffix)) name size counted
    ]

unfoldable pub list_entries : System → ShmScanInput → String → List String → Listing → Listing
list_entries system input path [] l = l
list_entries system input path (name ∷ names) l =
    list_entries system input path names (list_entry system input path name l)

abbrev pub has_shm_port : ℕ → List ℕ → Bool
has_shm_port p = any (λ q. q == p)

abbrev lock_for : Option LockState → PortLock
lock_for none = PortLock.absent
lock_for (some LockState.held) = PortLock.held
lock_for (some LockState.free) = PortLock.stale
lock_for (some LockState.missing) = PortLock.absent
lock_for (some LockState.unknown) = PortLock.unknown

-- What the loop over the nodes' ports finds of one.
abbrev pub is_missing : ShmScanInput → Listing → ℕ → Bool
is_missing input l port =
    has_shm_port port input.own_ports || not (has_text (decimal port) l.ports_held)

abbrev pub is_unknown_port : ShmScanInput → Listing → ℕ → Bool
is_unknown_port input l port =
    not (has_shm_port port input.own_ports) && has_text (decimal port) l.ports_undecided

abbrev pub port_lock : ShmScanInput → Listing → ℕ → PortLock
port_lock input l port =
    if has_shm_port port input.own_ports
    then PortLock.own
    else lock_for (lookup (decimal port) l.port_states)

abbrev pub check_port : ShmScanInput → Listing → ℕ → ShmInfo → ShmInfo
check_port input l port info = record info {
  checked_ports = info.checked_ports ++ port ∷ [];
  missing_ports =
      if is_missing input l port then info.missing_ports ++ port ∷ [] else info.missing_ports;
  unknown_ports =
      if is_missing input l port && is_unknown_port input l port
      then info.unknown_ports ++ port ∷ []
      else info.unknown_ports;
  port_locks = insert port (port_lock input l port) info.port_locks;
}

unfoldable pub check_ports : ShmScanInput → Listing → List ℕ → ShmInfo → ShmInfo
check_ports input l [] info = info
check_ports input l (port ∷ ports) info = check_ports input l ports (check_port input l port info)

abbrev pub add_warning : Bool → String → ShmInfo → ShmInfo
add_warning b code info = if b then record info { warnings = info.warnings ++ code ∷ [] } else info

-- The ratio of 0.9 is compared exactly, without the rounding of the source's `double`s.
abbrev pub nearly_full : ShmInfo → Bool
nearly_full info =
    ltb 0 info.total_bytes
    && (ltb info.free_bytes (16 * 1024 * 1024) || leb (9 * info.total_bytes) (10 * info.used_bytes))

abbrev pub add_capacity_warning : ShmInfo → ShmInfo
add_capacity_warning info = add_warning (nearly_full info) "shm-nearly-full" info

-- After the loops: visibility and warnings.
abbrev pub judge_visibility : ShmScanInput → ShmInfo → ShmInfo
judge_visibility input info = record info {
  other_host_participants = input.other_host_participants;
  nodes_visible = is_empty info.missing_ports && input.other_host_participants == 0;
}

abbrev pub forgive_stale : ShmInfo → ShmInfo
forgive_stale info =
    if length info.missing_ports == length info.checked_ports
    then record info { stale_segments = 0; stale_ports = 0 }
    else info

abbrev pub judge_nodes : ShmInfo → ShmInfo
judge_nodes info =
    if info.nodes_visible then info else forgive_stale (add_warning true "shm-not-visible" info)

abbrev pub judge_stale : ShmInfo → ShmInfo
judge_stale info =
    add_warning (ltb 0 (info.stale_segments + info.stale_ports)) "shm-stale-files" info

unfoldable pub judge : ShmScanInput → ShmInfo → ShmInfo
judge input info = add_capacity_warning (judge_stale (judge_nodes (judge_visibility input info)))

abbrev pub capacity : Capacity → ShmInfo → ShmInfo
capacity c info =
    let total = c.f_blocks * c.f_frsize % 2 ^ 64 in
    let free = c.f_bavail * c.f_frsize % 2 ^ 64 in
    record info {
      available = true;
      total_bytes = total;
      free_bytes = free;
      used_bytes = if leb free total then total - free else 0;
    }

abbrev pub new_listing : ShmInfo → Listing
new_listing info = record { info = info; ports_held = []; ports_undecided = []; port_states = [] }

abbrev pub scan_listed : System → ShmScanInput → String → List String → ShmInfo → ShmInfo
scan_listed system input path names info =
    let l = list_entries system input path names (new_listing (record info { listed = true })) in
    judge input (check_ports input l input.node_ports l.info)

unfoldable pub scan_shm : System → String → ShmScanInput → ShmInfo
scan_shm system path input =
    let info = record new_shm_info { path = path } in
    elim system.statvfs [
      | none ↦ info
      | some c ↦ elim system.readdir [
        | none ↦ capacity c info
        | some names ↦ scan_listed system input path names (capacity c info)
      ]
    ]
