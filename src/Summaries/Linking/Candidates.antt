-- ===== src/Summaries/Linking/Candidates.antt =====
-- Which endpoint a parent can be.
use fastdds_transport_viz.Prelude.{
  ◌+◌, String, Bool, true, false, ◌≡◌, ◌↔◌, ◌⊎◌, inl, inr, refl, ap, sym, List, [], ◌∷◌, Option,
  none, some, find-In, keep_if, All, In, In-keep_if, Option-cases, Bool-cases, arith, eq_iff, subst,
}
use mathlib.Core.Option.{some-injective}
use fastdds_transport_viz.Prelude.Text.{text_append, str_is_empty, strip_suffix, strip_suffix_sound}
use fastdds_transport_viz.Model.Endpoints.{EndpointPtr}
use fastdds_transport_viz.Summaries.Companions.{parent_topic, byte_at, entity_key}
use fastdds_transport_viz.Summaries.Linking.{is_candidate, precedes, choose, parent_of}

-- `c` is on the companion topic of `topic`.
abbrev pub IsCompanionOf : EndpointPtr → String → Type 0
IsCompanionOf c topic =
    (c.target.dds_topic ≡ text_append topic "/_buf_cpu") × (str_is_empty topic ≡ false)

-- Another endpoint on `topic` of the same side, participant and type.
abbrev pub IsCandidate : EndpointPtr → String → EndpointPtr → Type 0
IsCandidate c topic p =
    (¬ (p.place ≡ c.place))
    × (p.target.is_writer ≡ c.target.is_writer)
    × (p.target.participant_guid_prefix ≡ c.target.participant_guid_prefix)
    × (p.target.dds_type ≡ c.target.dds_type)
    × (p.target.dds_topic ≡ topic)

-- The entity key of `c` is the next one after `p`'s, of the same kind of entity.
abbrev pub IsNext : EndpointPtr → EndpointPtr → Type 0
IsNext c p =
    (entity_key p.target + 1 ≡ entity_key c.target)
    × (byte_at p.target.guid_bytes 15 ≡ byte_at c.target.guid_bytes 15)

-- `p` is a candidate, and the only one or the one that was numbered right before `c`.
pub record IsParent (all : List EndpointPtr) (c p : EndpointPtr) (topic : String) : Type 0 where
  pub named : IsCompanionOf c topic
  pub known : In p all
  pub candidate : IsCandidate c topic p
  pub singled_out : All (λ q. (q ≡ p) ⊎ (¬ IsCandidate c topic q)) all ⊎ IsNext c p

is_candidate_iff :
    (c : EndpointPtr) (topic : String) (p : EndpointPtr)
    → (is_candidate c topic p ≡ true) ↔ IsCandidate c topic p
unfolding is_candidate
is_candidate_iff c topic p = ground (
  arith,
  eq_iff p.target.participant_guid_prefix c.target.participant_guid_prefix,
  eq_iff p.target.dds_type c.target.dds_type,
  eq_iff p.target.dds_topic topic,
)

precedes_iff : (c p : EndpointPtr) → (precedes c p ≡ true) ↔ IsNext c p
unfolding precedes
precedes_iff c p = ground arith

parent_topic-IsCompanionOf :
    (c : EndpointPtr) (topic : String)
    → parent_topic c.target.dds_topic ≡ some topic
    → IsCompanionOf c topic
unfolding parent_topic
parent_topic-IsCompanionOf c topic h =
    elim (Option-cases (strip_suffix "/_buf_cpu" c.target.dds_topic)) [
      | inl e ↦ absurd (cc (rw e at h))
      | inr (rest, e) ↦ elim (Bool-cases (str_is_empty rest)) [
        | inl f ↦ absurd (cc (rw (e, f) at h))
        | inr f ↦
            let same : rest ≡ topic = some-injective rest topic (rw (e, f) at h) in
            rw (← same) (strip_suffix_sound "/_buf_cpu" c.target.dds_topic rest e, f)
      ]
    ]

-- Where one element alone passes a test, every other fails it.
others_fail :
    (f : EndpointPtr → Bool) (p : EndpointPtr) (part : List EndpointPtr)
    → ((q : EndpointPtr) → In q (keep_if f part) → q ≡ p)
    → All (λ q. (q ≡ p) ⊎ (f q ≡ false)) part
others_fail f p [] h = tt
others_fail f p (q ∷ part) h = elim (Bool-cases (f q)) [
  | inl e ↦ (inl (h q (rw e (inl refl))), others_fail f p part (λ r m. h r (rw e (inr m))))
  | inr e ↦ (inr e, others_fail f p part (λ r m. h r (rw e m)))
]

not_candidates :
    (c p : EndpointPtr) (topic : String) (part : List EndpointPtr)
    → All (λ q. (q ≡ p) ⊎ (is_candidate c topic q ≡ false)) part
    → All (λ q. (q ≡ p) ⊎ (¬ IsCandidate c topic q)) part
not_candidates c p topic [] h = tt
not_candidates c p topic (q ∷ part) (inl e, h) = (inl e, not_candidates c p topic part h)
not_candidates c p topic (q ∷ part) (inr e, h) =
    (inr (λ k. absurd (cc (e, (is_candidate_iff c topic q).1 k))), not_candidates c p topic part h)

choose-In :
    (c p : EndpointPtr) (ps : List EndpointPtr)
    → choose c ps ≡ some p
    → In p ps × ((ps ≡ p ∷ []) ⊎ (precedes c p ≡ true))
choose-In c p [] h = absurd (ground arith)
choose-In c p (q ∷ []) h =
    let same : q ≡ p = ap (λ (o : Option EndpointPtr). elim o [ none ↦ q | some x ↦ x ]) h in
    (inl (sym same), inl (ap (λ (x : EndpointPtr). x ∷ []) same))
choose-In c p (q ∷ r ∷ ps) h = let (m, e) = find-In (precedes c) (q ∷ r ∷ ps) p h in (m, inr e)

-- The parent of an endpoint on a companion topic is another known endpoint of the same side,
-- participant and type, on the topic without the suffix; it is the only such endpoint, or one
-- whose entity key is one less than the companion's, for the same kind of entity.
pub parent_of-IsParent :
    (all : List EndpointPtr) (c p : EndpointPtr)
    → parent_of all c ≡ some p
    → (topic : String) × IsParent all c p topic
unfolding parent_of
parent_of-IsParent all c p h = elim (Option-cases (parent_topic c.target.dds_topic)) [
  | inl e ↦ absurd (cc (rw e at h))
  | inr (topic, e) ↦
      let (m, single) = choose-In c p (keep_if (is_candidate c topic) all) (rw e at h) in
      let (known, candidate) = In-keep_if (is_candidate c topic) all p m in
      (
        topic,
        record {
          named = parent_topic-IsCompanionOf c topic e;
          known = known;
          candidate = (is_candidate_iff c topic p).0 candidate;
          singled_out = elim single [
            | inl alone ↦ inl (
                not_candidates c p topic all (
                  others_fail (is_candidate c topic) p all (λ q i.
                    elim (subst (λ (xs : List EndpointPtr). In q xs) alone i) [
                      | inl same ↦ same
                      | inr n ↦ absurd n
                    ])))
            | inr next ↦ inr ((precedes_iff c p).0 next)
          ];
        },
      )
]
