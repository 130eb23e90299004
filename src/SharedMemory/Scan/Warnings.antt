-- ===== src/SharedMemory/Scan/Warnings.antt =====
-- The warnings of a scan, against the counters that it reports.
use fastdds_transport_viz.Prelude.{
  ◌+◌, String, Bool, true, false, not, List, [], ◌∷◌, ◌++◌, some, length, if◌then◌else◌, ltb, ◌==◌,
  ◌≡◌, refl, sym, ap, ◌∙◌, inl, inr, arith, Bool-cases, append-nil,
}
use fastdds_transport_viz.Model.Memory.{ShmInfo, new_shm_info}
use fastdds_transport_viz.SharedMemory.Scan.{
  System, Capacity, ShmScanInput, new_listing, probe_lock, list_entries, check_ports, judge,
  judge_visibility, judge_nodes, forgive_stale, judge_stale, add_warning, nearly_full,
  add_capacity_warning, capacity, scan_shm,
}
use fastdds_transport_viz.SharedMemory.Scan.Counts.{
  IsBounded, list_entries-IsCounting, check_ports-IsCounting, judge-IsBounded,
}

abbrev pub flag : Bool → String → List String
flag b code = if b then code ∷ [] else []

-- The warnings that the counters of a report call for.
abbrev pub warnings_for : ShmInfo → List String
warnings_for x =
    flag (not x.nodes_visible) "shm-not-visible"
    ++ flag (ltb 0 (x.stale_segments + x.stale_ports)) "shm-stale-files"
    ++ flag (nearly_full x) "shm-nearly-full"

-- Reports that the warnings are the same for.
record SameCounts (a b : ShmInfo) : Type 0 where
  visible : a.nodes_visible ≡ b.nodes_visible
  stale : a.stale_segments + a.stale_ports ≡ b.stale_segments + b.stale_ports
  full : nearly_full a ≡ nearly_full b

add_warning-counts : (b : Bool) (code : String) (x : ShmInfo) → SameCounts (add_warning b code x) x
add_warning-counts true code x = record { visible = refl; stale = refl; full = refl }
add_warning-counts false code x = record { visible = refl; stale = refl; full = refl }

add_warning-warnings :
    (b : Bool) (code : String) (x : ShmInfo)
    → (add_warning b code x).warnings ≡ x.warnings ++ flag b code
add_warning-warnings true code x = refl
add_warning-warnings false code x = sym (append-nil x.warnings)

forgive_stale-warnings :
    (x : ShmInfo)
    → ((forgive_stale x).warnings ≡ x.warnings)
      × ((forgive_stale x).nodes_visible ≡ x.nodes_visible)
forgive_stale-warnings x = go (length x.missing_ports == length x.checked_ports)
  where
    go :
        (b : Bool)
        → ((if b then record x { stale_segments = 0; stale_ports = 0 } else x).warnings
            ≡ x.warnings)
          × ((if b then record x { stale_segments = 0; stale_ports = 0 } else x).nodes_visible
              ≡ x.nodes_visible)
    go true = (refl, refl)
    go false = (refl, refl)

judge_nodes-warnings :
    (x : ShmInfo)
    → ((judge_nodes x).warnings ≡ x.warnings ++ flag (not x.nodes_visible) "shm-not-visible")
      × ((judge_nodes x).nodes_visible ≡ x.nodes_visible)
judge_nodes-warnings x = elim (Bool-cases x.nodes_visible) [
  | inl e ↦ rw e (sym (append-nil x.warnings), refl)
  | inr e ↦ rw e (
      forgive_stale-warnings
        (record x { nodes_visible = false; warnings = x.warnings ++ "shm-not-visible" ∷ [] }))
]

three_appended :
    (w0 w1 w2 w3 f g h : List String)
    → w0 ≡ []
    → w1 ≡ w0 ++ f
    → w2 ≡ w1 ++ g
    → w3 ≡ w2 ++ h
    → w3 ≡ f ++ g ++ h
three_appended w0 w1 w2 w3 f g h a b c d = rw (d, c, b, a) refl

flags_for :
    (a b c d e f : Bool)
    → a ≡ d
    → b ≡ e
    → c ≡ f
    → flag (not a) "shm-not-visible" ++ flag b "shm-stale-files" ++ flag c "shm-nearly-full"
      ≡ flag (not d) "shm-not-visible" ++ flag e "shm-stale-files" ++ flag f "shm-nearly-full"
flags_for a b c d e f p q r = rw (p, q, r) refl

judge-warnings :
    (input : ShmScanInput) (x : ShmInfo)
    → x.warnings ≡ []
    → (judge input x).warnings ≡ warnings_for (judge input x)
unfolding judge
judge-warnings input x none_yet =
    let a = judge_visibility input x in
    let b = judge_nodes a in
    let stale = ltb 0 (b.stale_segments + b.stale_ports) in
    let c = judge_stale b in
    let full = nearly_full c in
    let (nodes, visible) = judge_nodes-warnings a in
    let b_c = add_warning-counts stale "shm-stale-files" b in
    let c_d = add_warning-counts full "shm-nearly-full" c in
    let d = add_capacity_warning c in
    three_appended a.warnings b.warnings c.warnings d.warnings _ _ _ none_yet nodes
      (add_warning-warnings stale "shm-stale-files" b)
      (add_warning-warnings full "shm-nearly-full" c)
    ∙ flags_for a.nodes_visible stale full d.nodes_visible
        (ltb 0 (d.stale_segments + d.stale_ports)) (nearly_full d)
        (sym (c_d.visible ∙ b_c.visible ∙ visible))
        (ap (λ n. ltb 0 n) (sym (c_d.stale ∙ b_c.stale))) (sym c_d.full)

-- A scan of a directory that could be listed counts no more stale files than files, no more
-- unmatched histories than histories and no more used bytes than there are, and its warnings are
-- exactly those that the counters it reports call for: the nodes are not visible, there are stale
-- files, the memory is nearly full.
pub scan_shm-IsBounded :
    (system : System) (path : String) (input : ShmScanInput) (c : Capacity) (names : List String)
    → system.statvfs ≡ some c
    → system.readdir ≡ some names
    → IsBounded (scan_shm system path input)
      × ((scan_shm system path input).warnings ≡ warnings_for (scan_shm system path input))
unfolding scan_shm probe_lock
scan_shm-IsBounded system path input c names has_capacity has_names =
    let info = record (capacity c (record new_shm_info { path = path })) { listed = true } in
    let l = list_entries system input path names (new_listing info) in
    let listed = list_entries-IsCounting system input path names (new_listing info) (record {
      segments = omega arith;
      ports = omega arith;
      histories = omega arith;
      bytes = ground arith;
      silent = refl;
    }) in
    let checked = check_ports-IsCounting input l input.node_ports l.info listed in
    rw (scan_shm, has_capacity, has_names)
      (
        judge-IsBounded input (check_ports input l input.node_ports l.info) checked,
        judge-warnings input (check_ports input l input.node_ports l.info) checked.silent,
      )
