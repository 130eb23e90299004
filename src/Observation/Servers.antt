-- ===== src/Observation/Servers.antt =====
-- decision.cpp, `attribute_discovery_servers`: which server serves a participant.
pub mod Attribution
use fastdds_transport_viz.Prelude.{
  ℕ, String, Bool, true, false, ◌||◌, ◌&&◌, not, List, [], ◌∷◌, Option, none, some, str_eq,
  if◌then◌else◌, keep_if, map,
}
use fastdds_transport_viz.Model.Endpoints.{bytes_eq}

-- The fields of Participant that the function reads and writes.
pub record Participant : Type 0 where
  pub guid_prefix : String
  pub host_id : List ℕ
  pub own : Bool
  pub discovery_protocol : String
  pub name : String
  pub discovery_server : Option String

unfoldable pub is_server : Participant → Bool
is_server p = str_eq p.discovery_protocol "SERVER" || str_eq p.discovery_protocol "BACKUP"

unfoldable pub is_client : Participant → Bool
is_client p =
    not p.own
    && (str_eq p.discovery_protocol "CLIENT" || str_eq p.discovery_protocol "SUPER_CLIENT")

-- `candidates == 1`, and the one that is.
abbrev pub only : List Participant → Option String
only (s ∷ []) = some s.guid_prefix
only _ = none

abbrev pub on_host : Participant → Participant → Bool
on_host p s = bytes_eq s.host_id p.host_id && str_eq s.name "DiscoveryServerAuto"

unfoldable pub server_of : Bool → List Participant → Participant → Option String
server_of easy_mode servers p =
    if not (is_client p)
    then none
    else if easy_mode
    then only (keep_if (on_host p) servers)
    else only servers

abbrev pub with_server : Bool → List Participant → Participant → Participant
with_server easy_mode servers p = record p { discovery_server = server_of easy_mode servers p }

-- No field that `is_server`, `is_client` or the server's description reads is written.
unfoldable pub attribute_discovery_servers : List Participant → Bool → List Participant
attribute_discovery_servers participants easy_mode =
    map (with_server easy_mode (keep_if is_server participants)) participants
