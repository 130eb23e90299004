-- ===== src/SharedMemory/Scan/Ports.antt =====
-- The ports that a scan finds missing, against the files of the directory.
use fastdds_transport_viz.Prelude.{
  ℕ, String, Bool, true, false, ◌&&◌, ◌||◌, not, List, [], ◌∷◌, ◌++◌, Option, none, some,
  if◌then◌else◌, any, keep_if, str_eq, ltb, ◌+◌, ◌==◌, length, ◌≡◌, refl, sym, ap, ◌∙◌, inl, inr,
  arith, Bool-cases, Option-cases, append_assoc, append-nil,
}
use fastdds_transport_viz.Prelude.OrderedMap.{lookup}
use fastdds_transport_viz.Prelude.Keys.{text_key}
use fastdds_transport_viz.Prelude.Text.{text_append}
use fastdds_transport_viz.Model.Memory.{ShmInfo, new_shm_info}
use fastdds_transport_viz.Decision.Locators.{has_text}
use fastdds_transport_viz.SharedMemory.Files.{
  port_prefixes, segment_prefixes, datasharing_prefix, lock_suffix, after_prefix, ends_with,
  is_digits, is_hex, decimal, starts_with,
}
use fastdds_transport_viz.SharedMemory.Scan.{
  System, Capacity, ShmScanInput, LockState, Listing, new_listing, set_info, count_bytes,
  list_datasharing, is_held, probe_lock, fastdds_file, list_port, list_file, list_entry,
  list_entries, has_shm_port, is_missing, check_port, check_ports, judge, judge_visibility,
  judge_nodes, forgive_stale, judge_stale, add_warning, nearly_full, add_capacity_warning, capacity,
  scan_shm,
}

abbrev pub full_name : String → String → String
full_name path name = text_append path (text_append "/" name)

abbrev pub is_regular : Option ℕ → Bool
is_regular none = false
is_regular (some size) = true

abbrev pub numbered : String → Option String → Bool
numbered number none = false
numbered number (some port) = is_digits port && str_eq port number

-- The file is a port file of this number, and a living process holds its lock.
abbrev pub holds_port : System → String → String → String → Bool
holds_port system path number name =
    fastdds_file name
    && is_regular (system.regular_size (full_name path name))
    && not (ends_with name lock_suffix)
    && numbered number (after_prefix port_prefixes name)
    && is_held (probe_lock system (text_append (full_name path name) lock_suffix))

list_port-held :
    (st : LockState) (port number : String) (l : Listing)
    → has_text number (list_port st port l).ports_held
      ≡ ((is_digits port && str_eq port number && is_held st) || has_text number l.ports_held)
unfolding list_port
list_port-held st port number l = elim (Bool-cases (is_digits port)) [
  | inl e ↦ elim (Bool-cases (is_held st)) [
    | inl f ↦ rw (e, f) (ground arith)
    | inr f ↦ rw (e, f) (ground arith)
  ]
  | inr e ↦ rw e refl
]

list_file-held :
    (input : ShmScanInput) (st : LockState) (name number : String) (size : ℕ) (l : Listing)
    → has_text number (list_file input st name size l).ports_held ≡ (
        (numbered number (after_prefix port_prefixes name) && is_held st)
        || has_text number l.ports_held)
unfolding list_file
list_file-held input st name number size l = elim (Option-cases (after_prefix port_prefixes name)) [
  | inl e ↦ elim (Option-cases (after_prefix segment_prefixes name)) [
    | inl f ↦ elim (Bool-cases (starts_with name datasharing_prefix)) [
      | inl g ↦ rw (list_file, e, f, g) refl
      | inr g ↦ rw (list_file, e, f, g) refl
    ]
    | inr (rest, f) ↦ rw (list_file, e, f) refl
  ]
  | inr (port, e) ↦ rw (list_file, e, list_port-held st port number l) (ground arith)
]

list_entry-held :
    (system : System) (input : ShmScanInput) (path name number : String) (l : Listing)
    → has_text number (list_entry system input path name l).ports_held
      ≡ (holds_port system path number name || has_text number l.ports_held)
unfolding list_entry
list_entry-held system input path name number l =
    let st = probe_lock system (text_append (full_name path name) lock_suffix) in
    elim (Bool-cases (fastdds_file name)) [
      | inr e ↦ rw e refl
      | inl e ↦ elim (Option-cases (system.regular_size (full_name path name))) [
        | inl f ↦ rw (e, f) refl
        | inr (size, f) ↦ elim (Bool-cases (ends_with name lock_suffix)) [
          | inl g ↦ rw (list_entry, e, f, g) refl
          | inr g ↦
              rw (e, f, g, list_file-held input st name number size (set_info (count_bytes size) l))
                refl
        ]
      ]
    ]

list_entries-held :
    (system : System) (input : ShmScanInput) (path number : String) (names : List String)
    (l : Listing)
    → has_text number (list_entries system input path names l).ports_held
      ≡ (any (holds_port system path number) names || has_text number l.ports_held)
unfolding list_entries
list_entries-held system input path number [] l = refl
list_entries-held system input path number (name ∷ names) l =
    rw
      (
        list_entries-held system input path number names (list_entry system input path name l),
        list_entry-held system input path name number l,
      )
      (ground arith)

-- The two lists of ports, which the directory does not touch.
record SamePorts (a b : ShmInfo) : Type 0 where
  checked : a.checked_ports ≡ b.checked_ports
  missing : a.missing_ports ≡ b.missing_ports

list_datasharing-SamePorts :
    (input : ShmScanInput) (name : String) (size : ℕ) (info : ShmInfo)
    → SamePorts (list_datasharing input name size info) info
list_datasharing-SamePorts input name size info =
    elim (Option-cases (lookup name input.datasharing_readers)) [
      | inr (reader, e) ↦ rw (list_datasharing, e) (record { checked = refl; missing = refl })
      | inl e ↦ elim (Option-cases (lookup name input.datasharing_writers)) [
        | inr (writer, f) ↦ rw (list_datasharing, e, f) (record { checked = refl; missing = refl })
        | inl f ↦ rw (list_datasharing, e, f) (record { checked = refl; missing = refl })
      ]
    ]

list_file-SamePorts :
    (input : ShmScanInput) (st : LockState) (name : String) (size : ℕ) (l : Listing)
    → SamePorts (list_file input st name size l).info l.info
unfolding list_file list_port
list_file-SamePorts input st name size l = elim (Option-cases (after_prefix port_prefixes name)) [
  | inr (port, e) ↦ elim (Bool-cases (is_digits port)) [
    | inl f ↦ rw (list_file, e, f) (record { checked = refl; missing = refl })
    | inr f ↦ rw (list_file, e, f) (record { checked = refl; missing = refl })
  ]
  | inl e ↦ elim (Option-cases (after_prefix segment_prefixes name)) [
    | inr (rest, f) ↦ elim (Bool-cases (is_hex rest)) [
      | inl g ↦ rw (list_file, e, f, g) (record { checked = refl; missing = refl })
      | inr g ↦ rw (list_file, e, f, g) (record { checked = refl; missing = refl })
    ]
    | inl f ↦ elim (Bool-cases (starts_with name datasharing_prefix)) [
      | inr g ↦ rw (list_file, e, f, g) (record { checked = refl; missing = refl })
      | inl g ↦ rw (list_file, e, f, g) (list_datasharing-SamePorts input name size l.info)
    ]
  ]
]

list_entry-SamePorts :
    (system : System) (input : ShmScanInput) (path name : String) (l : Listing)
    → SamePorts (list_entry system input path name l).info l.info
unfolding list_entry
list_entry-SamePorts system input path name l =
    let st = probe_lock system (text_append (full_name path name) lock_suffix) in
    elim (Bool-cases (fastdds_file name)) [
      | inr e ↦ rw e (record { checked = refl; missing = refl })
      | inl e ↦ elim (Option-cases (system.regular_size (full_name path name))) [
        | inl f ↦ rw (e, f) (record { checked = refl; missing = refl })
        | inr (size, f) ↦ elim (Bool-cases (ends_with name lock_suffix)) [
          | inl g ↦ rw (list_entry, e, f, g) (record { checked = refl; missing = refl })
          | inr g ↦
              let h = list_file-SamePorts input st name size (set_info (count_bytes size) l) in
              rw (list_entry, e, f, g) (record { checked = h.checked; missing = h.missing })
        ]
      ]
    ]

-- What a scan lists, from the listing on.
list_entries-SamePorts :
    (system : System) (input : ShmScanInput) (path : String) (names : List String) (l : Listing)
    → SamePorts (list_entries system input path names l).info l.info
unfolding list_entries
list_entries-SamePorts system input path [] l = record { checked = refl; missing = refl }
list_entries-SamePorts system input path (name ∷ names) l =
    let first = list_entry-SamePorts system input path name l in
    let rest =
      list_entries-SamePorts system input path names (list_entry system input path name l) in
    record { checked = rest.checked ∙ first.checked; missing = rest.missing ∙ first.missing }

check_ports-lists :
    (input : ShmScanInput) (l : Listing) (ports : List ℕ) (info : ShmInfo)
    → ((check_ports input l ports info).checked_ports ≡ info.checked_ports ++ ports)
      × ((check_ports input l ports info).missing_ports
          ≡ info.missing_ports ++ keep_if (is_missing input l) ports)
unfolding check_ports
check_ports-lists input l [] info =
    (sym (append-nil info.checked_ports), sym (append-nil info.missing_ports))
check_ports-lists input l (p ∷ ps) info =
    let (checked, missing) = check_ports-lists input l ps (check_port input l p info) in
    (
      checked ∙ append_assoc info.checked_ports (p ∷ []) ps,
      missing ∙ elim (Bool-cases (is_missing input l p)) [
        | inl e ↦ rw e (append_assoc info.missing_ports (p ∷ []) (keep_if (is_missing input l) ps))
        | inr e ↦ rw e refl
      ],
    )

SamePorts-if :
    (b : Bool) (x y z : ShmInfo) → SamePorts x z → SamePorts y z → SamePorts (if b then x else y) z
SamePorts-if true x y z p q = p
SamePorts-if false x y z p q = q

SamePorts-trans : (x y z : ShmInfo) → SamePorts x y → SamePorts y z → SamePorts x z
SamePorts-trans x y z p q = record {
  checked = p.checked ∙ q.checked;
  missing = p.missing ∙ q.missing;
}

SamePorts-refl : (x : ShmInfo) → SamePorts x x
SamePorts-refl x = record { checked = refl; missing = refl }

add_warning-SamePorts :
    (b : Bool) (code : String) (x : ShmInfo) → SamePorts (add_warning b code x) x
add_warning-SamePorts b code x =
    SamePorts-if b _ x x (record { checked = refl; missing = refl }) (SamePorts-refl x)

judge_nodes-SamePorts : (x : ShmInfo) → SamePorts (judge_nodes x) x
judge_nodes-SamePorts x =
    let y = add_warning true "shm-not-visible" x in
    SamePorts-if x.nodes_visible x (forgive_stale y) x (SamePorts-refl x) (
      SamePorts-trans (forgive_stale y) y x
        (SamePorts-if (length y.missing_ports == length y.checked_ports) _ y y
          (record { checked = refl; missing = refl }) (SamePorts-refl y))
        (add_warning-SamePorts true "shm-not-visible" x))

judge-SamePorts : (input : ShmScanInput) (x : ShmInfo) → SamePorts (judge input x) x
unfolding judge
judge-SamePorts input x =
    let a = judge_visibility input x in
    let b = judge_nodes a in
    let c = judge_stale b in
    SamePorts-trans (add_capacity_warning c) c x
      (add_warning-SamePorts (nearly_full c) "shm-nearly-full" c)
      (SamePorts-trans c b x
        (add_warning-SamePorts (ltb 0 (b.stale_segments + b.stale_ports)) "shm-stale-files" b)
        (SamePorts-trans b a x (judge_nodes-SamePorts a)
          (record { checked = refl; missing = refl })))

-- The port of a node is not held here.
abbrev pub is_absent : System → String → ShmScanInput → List String → ℕ → Bool
is_absent system path input names port =
    has_shm_port port input.own_ports || not (any (holds_port system path (decimal port)) names)

keep_if-ext :
    {A : Type 0} (p q : A → Bool) (xs : List A)
    → ((a : A) → p a ≡ q a)
    → keep_if p xs ≡ keep_if q xs
keep_if-ext p q [] h = refl
keep_if-ext p q (x ∷ xs) h = rw (h x, keep_if-ext p q xs h) refl

is_missing-is_absent :
    (system : System) (path : String) (input : ShmScanInput) (names : List String) (info : ShmInfo)
    (port : ℕ)
    → is_missing input (list_entries system input path names (new_listing info)) port
      ≡ is_absent system path input names port
is_missing-is_absent system path input names info port =
    rw (list_entries-held system input path (decimal port) names (new_listing info)) (ground arith)

pub scan_shm-missing :
    (system : System) (path : String) (input : ShmScanInput) (c : Capacity) (names : List String)
    → system.statvfs ≡ some c
    → system.readdir ≡ some names
    → ((scan_shm system path input).checked_ports ≡ input.node_ports)
      × ((scan_shm system path input).missing_ports
          ≡ keep_if (is_absent system path input names) input.node_ports)
unfolding scan_shm probe_lock
scan_shm-missing system path input c names has_capacity has_names =
    let info = record (capacity c (record new_shm_info { path = path })) { listed = true } in
    let l = list_entries system input path names (new_listing info) in
    let listed = list_entries-SamePorts system input path names (new_listing info) in
    let (checked, missing) = check_ports-lists input l input.node_ports l.info in
    let judged = judge-SamePorts input (check_ports input l input.node_ports l.info) in
    rw (scan_shm, has_capacity, has_names)
      (
        judged.checked ∙ checked ∙ ap (λ ports. ports ++ input.node_ports) listed.checked,
        judged.missing
            ∙ missing
            ∙ ap (λ ports. ports ++ keep_if (is_missing input l) input.node_ports) listed.missing
            ∙ keep_if-ext (is_missing input l) (is_absent system path input names) input.node_ports
                (is_missing-is_absent system path input names info),
      )
