-- ===== src/Decision/Rules/Conditions.antt =====
-- The conditions of the selection rules.
use fastdds_transport_viz.Prelude.{ℕ, String, true, ◌≡◌, ◌≢◌, ◌⊎◌, [], In}
use fastdds_transport_viz.Model.Kinds.{LocatorKind, DataSharingKind, ShmVisibility}
use fastdds_transport_viz.Model.Endpoints.{Locator, Endpoint}
use fastdds_transport_viz.Decision.Locators.Pick.{Announces}

abbrev pub Announced : Endpoint → Type 0
Announced e = (e.type_information_hash ≢ "") ⊎ (e.type_information_minimal_hash ≢ "")

abbrev pub SameHash : String → String → Type 0
SameHash a b = (a ≢ "") × (a ≡ b)

-- `is_same_type` of Fast DDS 3.x where both sides announce TypeInformation, the names elsewhere.
abbrev pub TypesMatch : Endpoint → Endpoint → Type 0
TypesMatch w r =
    (Announced w
      × Announced r
      × (SameHash w.type_information_hash r.type_information_hash
          ⊎ SameHash w.type_information_minimal_hash r.type_information_minimal_hash))
    ⊎ ((¬ (Announced w × Announced r)) × (w.dds_type ≡ r.dds_type))

abbrev pub SameHost : Endpoint → Endpoint → Type 0
SameHost w r = w.host_id ≡ r.host_id

abbrev Enabled : DataSharingKind → Type 0
Enabled k = (k ≡ DataSharingKind.on) ⊎ (k ≡ DataSharingKind.auto)

-- Both sides announce data-sharing, and their domain ids, where both announce any, have one in
-- common.
abbrev pub DataSharingPair : Endpoint → Endpoint → Type 0
DataSharingPair w r =
    Enabled w.qos.data_sharing
    × Enabled r.qos.data_sharing
    × ((w.qos.data_sharing_domains ≡ [])
        ⊎ ((r.qos.data_sharing_domains ≡ [])
            ⊎ ((x : ℕ) × In x w.qos.data_sharing_domains × In x r.qos.data_sharing_domains)))

abbrev pub BothShm : Endpoint → Endpoint → Type 0
BothShm w r = Announces w LocatorKind.shm × Announces r LocatorKind.shm

-- The participant listens on the port for shared memory.
abbrev pub ListensOn : Endpoint → ℕ → Type 0
ListensOn e p =
    In p e.participant_shm_ports
    ⊎ ((l : Locator) × In l e.unicast × (l.kind ≡ LocatorKind.shm) × (l.port ≡ p))

-- One side is seen from the tool's namespace and the other is not.
abbrev pub OneHidden : ShmVisibility → ShmVisibility → Type 0
OneHidden wv rv =
    ((wv ≡ ShmVisibility.visible) × (rv ≡ ShmVisibility.not_visible))
    ⊎ ((wv ≡ ShmVisibility.not_visible) × (rv ≡ ShmVisibility.visible))

abbrev OtherParticipant : Endpoint → Endpoint → Type 0
OtherParticipant w r = w.participant_guid_prefix ≢ r.participant_guid_prefix

abbrev pub IpcSplit : Endpoint → Endpoint → Type 0
IpcSplit w r =
    OtherParticipant w r
    × (((p : ℕ) × ListensOn w p × ListensOn r p)
        ⊎ OneHidden w.participant_shm_visibility r.participant_shm_visibility)

abbrev pub SegmentSplit : Endpoint → Endpoint → Type 0
SegmentSplit w r =
    OtherParticipant w r
    × OneHidden w.datasharing_segment_visibility r.datasharing_segment_visibility

-- Fast DDS before 2.10 hides the network locators of the host, and one side alone has SHM.
abbrev pub HiddenLocators : Endpoint → Endpoint → Type 0
HiddenLocators w r =
    SameHost w r
    × ((w.same_host_locators_filtered ≡ true) ⊎ (r.same_host_locators_filtered ≡ true))
    × ((Announces w LocatorKind.shm × (¬ Announces r LocatorKind.shm))
        ⊎ ((¬ Announces w LocatorKind.shm) × Announces r LocatorKind.shm))
