-- ===== src/Decision/Rules/Splits.antt =====
-- The evidence of a split decides the conditions of the selection rules on it.
use fastdds_transport_viz.Prelude.{
  ℕ, Bool, true, false, ◌&&◌, ◌||◌, ◌≡◌, ◌↔◌, inl, inr, refl, List, In, any, any-In, In-any,
  In-append_left, In-append_right, is_empty, keep_if, arith, eq_iff, ==_iff, Bool-cases, ◌==◌,
  In-append, In-map, In-keep_if, map-In, keep_if-In, sym,
}
use fastdds_transport_viz.Model.Kinds.{
  LocatorKind, kind_eq, kind_eq_iff, ShmVisibility, is_visible, is_not_visible,
}
use fastdds_transport_viz.Model.Endpoints.{Locator, Endpoint}
use fastdds_transport_viz.Decision.Split.{
  ipc_split_reasons, datasharing_split_reasons, shm_ports, shares_port,
}
use fastdds_transport_viz.Decision.Rules.Conditions.{IpcSplit, SegmentSplit, ListensOn, OneHidden}

abbrev shm_locators : Endpoint → List Locator
shm_locators e = keep_if (λ l. kind_eq l.kind LocatorKind.shm) e.unicast

listens_sound : (e : Endpoint) (p : ℕ) → In p (shm_ports e) → ListensOn e p
unfolding shm_ports
listens_sound e p m = elim (In-append p e.participant_shm_ports _ m) [
  | inl n ↦ inl n
  | inr n ↦
      let (l, k, same) = In-map (λ (l : Locator). l.port) (shm_locators e) p n in
      let (j, is_shm) =
        In-keep_if (λ (l : Locator). kind_eq l.kind LocatorKind.shm) e.unicast l k in
      inr (l, j, (kind_eq_iff l.kind LocatorKind.shm).0 is_shm, sym same)
]

listens_complete : (e : Endpoint) (p : ℕ) → ListensOn e p → In p (shm_ports e)
unfolding shm_ports
listens_complete e p (inl m) = In-append_left p e.participant_shm_ports _ m
listens_complete e p (inr (l, m, is_shm, same)) = In-append_right p e.participant_shm_ports _ (
    rw (← same) (
      map-In (λ (k : Locator). k.port) (shm_locators e) l
        (keep_if-In (λ (k : Locator). kind_eq k.kind LocatorKind.shm) e.unicast l m
          ((kind_eq_iff l.kind LocatorKind.shm).1 is_shm))))

shares_port_iff :
    (w r : Endpoint)
    → (shares_port (shm_ports w) (shm_ports r) ≡ true) ↔ ((p : ℕ) × ListensOn w p × ListensOn r p)
unfolding shares_port
shares_port_iff w r = (
  (λ h.
      let (p, m, e) = any-In (λ (p : ℕ). any (λ q. q == p) (shm_ports r)) (shm_ports w) h in
      let (q, n, f) = any-In (λ (q : ℕ). q == p) (shm_ports r) e in
      (p, listens_sound w p m, listens_sound r p (rw (← (==_iff q p).0 f) n))),
  (λ (p, m, n).
      In-any (λ (p : ℕ). any (λ q. q == p) (shm_ports r)) (shm_ports w) p (listens_complete w p m)
        (In-any (λ (q : ℕ). q == p) (shm_ports r) p (listens_complete r p n)
          ((==_iff p p).1 refl))),
)

abbrev one_hidden : ShmVisibility → ShmVisibility → Bool
one_hidden wv rv = (is_visible wv && is_not_visible rv) || (is_not_visible wv && is_visible rv)

one_hidden_iff : (wv rv : ShmVisibility) → (one_hidden wv rv ≡ true) ↔ OneHidden wv rv
one_hidden_iff wv rv = ground arith

-- The list of the IPC evidence is empty exactly when the two participants are not split.
pub IpcSplit-iff : (w r : Endpoint) → (is_empty (ipc_split_reasons w r) ≡ false) ↔ IpcSplit w r
unfolding ipc_split_reasons
IpcSplit-iff w r = (
  (λ h. (
    ground (arith, eq_iff w.participant_guid_prefix r.participant_guid_prefix),
    elim (Bool-cases (shares_port (shm_ports w) (shm_ports r))) [
      | inl e ↦ inl ((shares_port_iff w r).0 e)
      | inr e ↦ inr (
          (one_hidden_iff _ _).0
            (ground (arith, eq_iff w.participant_guid_prefix r.participant_guid_prefix)))
    ],
  )),
  (λ (p, h). elim h [
    | inl shared ↦ ground (
      arith,
      eq_iff w.participant_guid_prefix r.participant_guid_prefix,
      (shares_port_iff w r).1 shared,
    )
    | inr seen ↦ ground (
      arith,
      eq_iff w.participant_guid_prefix r.participant_guid_prefix,
      (one_hidden_iff w.participant_shm_visibility r.participant_shm_visibility).1 seen,
    )
  ]),
)

pub SegmentSplit-iff :
    (w r : Endpoint) → (is_empty (datasharing_split_reasons w r) ≡ false) ↔ SegmentSplit w r
unfolding datasharing_split_reasons
SegmentSplit-iff w r = ground (
  arith,
  eq_iff w.participant_guid_prefix r.participant_guid_prefix,
  one_hidden_iff w.datasharing_segment_visibility r.datasharing_segment_visibility,
)
