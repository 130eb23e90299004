-- ===== src/Model/Memory.antt =====
-- model.hpp: the state of the shared memory.
use fastdds_transport_viz.Prelude.{ℕ, String, Bool, true, false, List, []}
use fastdds_transport_viz.Model.Kinds.{PortLock}

pub record ShmInfo : Type 0 where
  pub available : Bool
  pub path : String
  pub total_bytes : ℕ
  pub used_bytes : ℕ
  pub free_bytes : ℕ
  pub fastdds_bytes : ℕ
  pub segments : ℕ
  pub stale_segments : ℕ
  pub ports : ℕ
  pub stale_ports : ℕ
  pub datasharing_histories : ℕ
  pub datasharing_unmatched : ℕ
  pub datasharing_notifications : ℕ
  pub checked_ports : List ℕ
  pub missing_ports : List ℕ
  pub unknown_ports : List ℕ
  pub port_locks : List (ℕ × PortLock)
  pub other_host_participants : ℕ
  pub nodes_visible : Bool
  pub warnings : List String
  pub datasharing_by_writer : List (String × ℕ)
  pub datasharing_notification_readers : List String
  pub listed : Bool

-- `ShmInfo info;`
abbrev pub new_shm_info : ShmInfo
new_shm_info = record {
  available = false;
  path = "";
  total_bytes = 0;
  used_bytes = 0;
  free_bytes = 0;
  fastdds_bytes = 0;
  segments = 0;
  stale_segments = 0;
  ports = 0;
  stale_ports = 0;
  datasharing_histories = 0;
  datasharing_unmatched = 0;
  datasharing_notifications = 0;
  checked_ports = [];
  missing_ports = [];
  unknown_ports = [];
  port_locks = [];
  other_host_participants = 0;
  nodes_visible = true;
  warnings = [];
  datasharing_by_writer = [];
  datasharing_notification_readers = [];
  listed = false;
}
