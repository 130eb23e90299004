-- ===== src/SharedMemory/Scan/Counts.antt =====
-- The counters and the warnings of a scan.
use fastdds_transport_viz.Prelude.{
  ℕ, ◌+◌, ◌≤◌, String, Bool, true, false, not, List, [], ◌∷◌, length, if◌then◌else◌, ◌==◌, ◌≡◌, inl,
  inr, arith, Bool-cases, Option-cases,
}
use fastdds_transport_viz.Prelude.OrderedMap.{lookup}
use fastdds_transport_viz.Prelude.Keys.{text_key}
use fastdds_transport_viz.Prelude.Text.{text_append}
use fastdds_transport_viz.Model.Memory.{ShmInfo}
use fastdds_transport_viz.SharedMemory.Files.{
  port_prefixes, segment_prefixes, datasharing_prefix, lock_suffix, after_prefix, ends_with,
  is_digits, is_hex, starts_with,
}
use fastdds_transport_viz.SharedMemory.Scan.{
  System, ShmScanInput, LockState, Listing, is_free, set_info, count_bytes, list_segment,
  list_datasharing, probe_lock, fastdds_file, list_port, list_file, list_entry, list_entries,
  check_port, check_ports, judge, judge_visibility, judge_nodes, forgive_stale, add_warning,
}

-- No more stale files than files, and no more unmatched histories than histories.
pub record IsBounded (x : ShmInfo) : Type 0 where
  pub segments : x.stale_segments ≤ x.segments
  pub ports : x.stale_ports ≤ x.ports
  pub histories : x.datasharing_unmatched ≤ x.datasharing_histories
  pub bytes : x.used_bytes ≤ x.total_bytes

-- ... before any warning.
pub record IsCounting (x : ShmInfo) : Type 0 where
  pub segments : x.stale_segments ≤ x.segments
  pub ports : x.stale_ports ≤ x.ports
  pub histories : x.datasharing_unmatched ≤ x.datasharing_histories
  pub bytes : x.used_bytes ≤ x.total_bytes
  pub silent : x.warnings ≡ []

IsCounting-if :
    (b : Bool) (x y : ShmInfo) → IsCounting x → IsCounting y → IsCounting (if b then x else y)
IsCounting-if true x y p q = p
IsCounting-if false x y p q = q

one_more : (b : Bool) (m n : ℕ) → m ≤ n → m + (if b then 1 else 0) ≤ n + 1
one_more true m n h = omega arith
one_more false m n h = omega arith

list_port-IsCounting :
    (st : LockState) (port : String) (l : Listing)
    → IsCounting l.info
    → IsCounting (list_port st port l).info
unfolding list_port
list_port-IsCounting st port l h = elim (Bool-cases (is_digits port)) [
  | inl e ↦ rw e (record {
    segments = h.segments;
    ports = one_more (is_free st) l.info.stale_ports l.info.ports h.ports;
    histories = h.histories;
    bytes = h.bytes;
    silent = h.silent;
  })
  | inr e ↦ rw e h
]

list_segment-IsCounting :
    (st : LockState) (rest : String) (x : ShmInfo)
    → IsCounting x
    → IsCounting (list_segment st rest x)
list_segment-IsCounting st rest x h = IsCounting-if (not (is_hex rest)) x _ h (record {
  segments = one_more (is_free st) x.stale_segments x.segments h.segments;
  ports = h.ports;
  histories = h.histories;
  bytes = h.bytes;
  silent = h.silent;
})

list_datasharing-IsCounting :
    (input : ShmScanInput) (name : String) (size : ℕ) (x : ShmInfo)
    → IsCounting x
    → IsCounting (list_datasharing input name size x)
list_datasharing-IsCounting input name size x h =
    elim (Option-cases (lookup name input.datasharing_readers)) [
      | inr (reader, e) ↦
          rw (list_datasharing, e)
            (record {
              segments = h.segments;
              ports = h.ports;
              histories = h.histories;
              bytes = h.bytes;
              silent = h.silent;
            })
      | inl e ↦ elim (Option-cases (lookup name input.datasharing_writers)) [
        | inr (writer, f) ↦
            rw (list_datasharing, e, f)
              (record {
                segments = h.segments;
                ports = h.ports;
                histories = omega (arith, h.histories);
                bytes = h.bytes;
                silent = h.silent;
              })
        | inl f ↦
            rw (list_datasharing, e, f)
              (record {
                segments = h.segments;
                ports = h.ports;
                histories = omega (arith, h.histories);
                bytes = h.bytes;
                silent = h.silent;
              })
      ]
    ]

list_file-IsCounting :
    (input : ShmScanInput) (st : LockState) (name : String) (size : ℕ) (l : Listing)
    → IsCounting l.info
    → IsCounting (list_file input st name size l).info
unfolding list_file
list_file-IsCounting input st name size l h =
    elim (Option-cases (after_prefix port_prefixes name)) [
      | inr (port, e) ↦ rw (list_file, e) (list_port-IsCounting st port l h)
      | inl e ↦ elim (Option-cases (after_prefix segment_prefixes name)) [
        | inr (rest, f) ↦ rw (list_file, e, f) (list_segment-IsCounting st rest l.info h)
        | inl f ↦ elim (Bool-cases (starts_with name datasharing_prefix)) [
          | inl g ↦ rw (list_file, e, f, g) (list_datasharing-IsCounting input name size l.info h)
          | inr g ↦ rw (list_file, e, f, g) h
        ]
      ]
    ]

list_entry-IsCounting :
    (system : System) (input : ShmScanInput) (path name : String) (l : Listing)
    → IsCounting l.info
    → IsCounting (list_entry system input path name l).info
unfolding list_entry
list_entry-IsCounting system input path name l h =
    let full = text_append path (text_append "/" name) in
    let st = probe_lock system (text_append full lock_suffix) in
    elim (Bool-cases (fastdds_file name)) [
      | inr e ↦ rw e h
      | inl e ↦ elim (Option-cases (system.regular_size full)) [
        | inl f ↦ rw (e, f) h
        | inr (size, f) ↦
            let counted : IsCounting (count_bytes size l.info) = record {
              segments = h.segments;
              ports = h.ports;
              histories = h.histories;
              bytes = h.bytes;
              silent = h.silent;
            } in
            elim (Bool-cases (ends_with name lock_suffix)) [
              | inl g ↦ rw (list_entry, e, f, g) counted
              | inr g ↦
                  rw (list_entry, e, f, g)
                    (list_file-IsCounting input st name size (set_info (count_bytes size) l)
                      counted)
            ]
      ]
    ]

pub list_entries-IsCounting :
    (system : System) (input : ShmScanInput) (path : String) (names : List String) (l : Listing)
    → IsCounting l.info
    → IsCounting (list_entries system input path names l).info
unfolding list_entries
list_entries-IsCounting system input path [] l h = h
list_entries-IsCounting system input path (name ∷ names) l h =
    list_entries-IsCounting system input path names (list_entry system input path name l)
      (list_entry-IsCounting system input path name l h)

pub check_ports-IsCounting :
    (input : ShmScanInput) (l : Listing) (ports : List ℕ) (x : ShmInfo)
    → IsCounting x
    → IsCounting (check_ports input l ports x)
unfolding check_ports
check_ports-IsCounting input l [] x h = h
check_ports-IsCounting input l (p ∷ ps) x h =
    check_ports-IsCounting input l ps (check_port input l p x) (record {
      segments = h.segments;
      ports = h.ports;
      histories = h.histories;
      bytes = h.bytes;
      silent = h.silent;
    })

IsBounded-if :
    (b : Bool) (x y : ShmInfo) → IsBounded x → IsBounded y → IsBounded (if b then x else y)
IsBounded-if true x y p q = p
IsBounded-if false x y p q = q

add_warning-IsBounded :
    (b : Bool) (code : String) (x : ShmInfo) → IsBounded x → IsBounded (add_warning b code x)
add_warning-IsBounded b code x h =
    IsBounded-if b _ x
      (record { segments = h.segments; ports = h.ports; histories = h.histories; bytes = h.bytes })
      h

judge_nodes-IsBounded : (x : ShmInfo) → IsBounded x → IsBounded (judge_nodes x)
judge_nodes-IsBounded x h =
    let y = add_warning true "shm-not-visible" x in
    let warned = add_warning-IsBounded true "shm-not-visible" x h in
    IsBounded-if x.nodes_visible x (forgive_stale y) h (
      IsBounded-if (length y.missing_ports == length y.checked_ports) _ y
        (record {
          segments = omega arith;
          ports = omega arith;
          histories = warned.histories;
          bytes = warned.bytes;
        })
        warned)

pub judge-IsBounded :
    (input : ShmScanInput) (x : ShmInfo) → IsCounting x → IsBounded (judge input x)
unfolding judge
judge-IsBounded input x h =
    let a : IsBounded (judge_visibility input x) = record {
      segments = h.segments;
      ports = h.ports;
      histories = h.histories;
      bytes = h.bytes;
    } in
    add_warning-IsBounded _ "shm-nearly-full" _
      (add_warning-IsBounded _ "shm-stale-files" _ (judge_nodes-IsBounded _ a))
