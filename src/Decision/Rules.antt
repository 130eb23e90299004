-- ===== src/Decision/Rules.antt =====
-- The selection rules of Fast DDS as a relation between two endpoints and a transport, stated
-- without the functions of the source, and a decision procedure for each of its conditions.
pub mod Conditions
pub mod Tests
pub mod Splits
use fastdds_transport_viz.Prelude.{String, Bool, ◌≡◌, ◌⊎◌, All}
use fastdds_transport_viz.Model.Kinds.{Transport}
use fastdds_transport_viz.Model.Endpoints.{Locator, Endpoint}
use fastdds_transport_viz.Decision.Locators.{transport_for}
use fastdds_transport_viz.Decision.Locators.Pick.{FirstReached, Reaches}
use fastdds_transport_viz.Decision.Qos.Compatible.{Compatible}
use Conditions.{
  TypesMatch, SameHost, DataSharingPair, BothShm, IpcSplit, SegmentSplit, HiddenLocators,
}

-- Neither data-sharing nor shared memory takes the pair.
abbrev pub UsesNetwork : Endpoint → Endpoint → Type 0
UsesNetwork w r = (¬ SameHost w r) ⊎ (SameHost w r × (¬ DataSharingPair w r) × (¬ BothShm w r))

-- A split that a data-sharing pair shows.
abbrev pub DataSharingSplit : Endpoint → Endpoint → Type 0
DataSharingSplit w r = (BothShm w r × IpcSplit w r) ⊎ SegmentSplit w r

-- The locator by which the writer reaches the reader: unicast before multicast.
abbrev Selected : Endpoint → Endpoint → Locator → Type 0
Selected w r l =
    FirstReached w l r.unicast ⊎ (All (λ k. ¬ Reaches w k) r.unicast × FirstReached w l r.multicast)

abbrev pub NothingReached : Endpoint → Endpoint → Type 0
NothingReached w r = All (λ k. ¬ Reaches w k) r.unicast × All (λ k. ¬ Reaches w k) r.multicast

pub record Matched (fnmatch : String → String → Bool) (w r : Endpoint) : Type 0 where
  pub types : TypesMatch w r
  pub qos : Compatible fnmatch w.qos r.qos

pub data Predicted (fnmatch : String → String → Bool) (w r : Endpoint) : Transport → Type 0 where
  other_type : ¬ TypesMatch w r → Predicted fnmatch w r Transport.no_transport
  incompatible :
      TypesMatch w r
      → ¬ Compatible fnmatch w.qos r.qos
      → Predicted fnmatch w r Transport.no_transport
  zero_copy :
      Matched fnmatch w r
      → SameHost w r
      → DataSharingPair w r
      → ¬ DataSharingSplit w r
      → Predicted fnmatch w r Transport.data_sharing
  zero_copy_split :
      Matched fnmatch w r
      → SameHost w r
      → DataSharingPair w r
      → DataSharingSplit w r
      → Predicted fnmatch w r Transport.no_transport
  shared_memory :
      Matched fnmatch w r
      → SameHost w r
      → ¬ DataSharingPair w r
      → BothShm w r
      → ¬ IpcSplit w r
      → Predicted fnmatch w r Transport.shm
  shared_memory_split :
      Matched fnmatch w r
      → SameHost w r
      → ¬ DataSharingPair w r
      → BothShm w r
      → IpcSplit w r
      → Predicted fnmatch w r Transport.no_transport
  network :
      {t : Transport} (l : Locator)
      → Matched fnmatch w r
      → UsesNetwork w r
      → Selected w r l
      → t ≡ transport_for l.kind
      → Predicted fnmatch w r t
  hidden :
      Matched fnmatch w r
      → UsesNetwork w r
      → NothingReached w r
      → HiddenLocators w r
      → Predicted fnmatch w r Transport.udpv4
  unreachable :
      Matched fnmatch w r
      → UsesNetwork w r
      → NothingReached w r
      → ¬ HiddenLocators w r
      → Predicted fnmatch w r Transport.no_transport
