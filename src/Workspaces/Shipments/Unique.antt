-- ===== src/Workspaces/Shipments/Unique.antt =====
-- A shipment is linked exactly to the one sale that it can come from.
use amocrm_analytics.Base.{
  ℕ, ◌≡◌, ◌∙◌, refl, ap, Bool, true, false, ◌&&◌, not, Option, none, some, List, [], ◌∷◌, ◌++◌,
  filter, All, ◌↔◌, Bool-cases, inl, inr,
}
use amocrm_analytics.Workspaces.Shipments.{
  identifier, includes, file_ids, Shipment, Candidate, identified, unresolved, is_empty, is_match,
  is_given, choose, choose_shipment_source,
}
use amocrm_analytics.Workspaces.Shipments.Source.{IsSource, is_match-iff_IsSource}

-- Exactly one element of the list has the property, and its id is the given one.
abbrev pub IsOnly : (P : Candidate → Type 0) (id : ℕ) → List Candidate → Type 0
IsOnly P id cs =
    (before : List Candidate) × ((c : Candidate) × ((after : List Candidate) × ((cs
            ≡ before ++ c ∷ after)
          × ((c.id ≡ id) × (P c × (All (λ d. ¬ (P d)) before × All (λ d. ¬ (P d)) after))))))

module _ (p : Candidate → Bool) where
  abbrev Passes : Candidate → Type 0
  Passes c = p c ≡ true

  none_of_empty : (cs : List Candidate) → filter p cs ≡ [] → All (λ d. ¬ (Passes d)) cs
  none_of_empty [] h = tt
  none_of_empty (c ∷ cs) h = elim (Bool-cases (p c)) [
    | inl y ↦ absurd (list_absurd c (filter p cs) (rw y at h))
    | inr n ↦ ((λ y. cc), none_of_empty cs (rw n at h))
  ]
    where
      list_absurd : (x : Candidate) (xs : List Candidate) → x ∷ xs ≡ [] → ⊥
      list_absurd x xs e = cc

  empty_of_none : (cs : List Candidate) → All (λ d. ¬ (Passes d)) cs → filter p cs ≡ []
  empty_of_none [] h = refl
  empty_of_none (c ∷ cs) (first, rest) = elim (Bool-cases (p c)) [
    | inl y ↦ absurd (first y)
    | inr n ↦ rw n (empty_of_none cs rest)
  ]

  choose-cons :
      (c : Candidate) (cs : List Candidate) (id : ℕ)
      → choose (c ∷ cs) ≡ identified id
      → (cs ≡ []) × (c.id ≡ id)
  choose-cons c [] id h = (refl, cc)
  choose-cons c (d ∷ cs) id h = cc

  IsOnly-of_choose :
      (cs : List Candidate) (id : ℕ) → choose (filter p cs) ≡ identified id → IsOnly Passes id cs
  IsOnly-of_choose [] id h = cc
  IsOnly-of_choose (c ∷ cs) id h = elim (Bool-cases (p c)) [
    | inl y ↦
        let (alone, same) = choose-cons c (filter p cs) id (rw y at h) in
        ([], (c, (cs, (refl, (same, (y, (tt, none_of_empty cs alone)))))))
    | inr n ↦
        let (before, (d, (after, (e, (same, (passes, (none_before, none_after))))))) =
          IsOnly-of_choose cs id (rw n at h) in
        (
          c ∷ before,
          (d, (after, (ap (◌∷◌ c) e, (same, (passes, (((λ y. cc), none_before), none_after)))))),
        )
  ]

  choose-of_parts :
      (before : List Candidate) (c : Candidate) (after : List Candidate)
      → Passes c
      → All (λ d. ¬ (Passes d)) before
      → All (λ d. ¬ (Passes d)) after
      → choose (filter p (before ++ c ∷ after)) ≡ identified c.id
  choose-of_parts [] c after passes nb na = rw (passes, empty_of_none after na) refl
  choose-of_parts (b ∷ before) c after passes (first, rest) na = elim (Bool-cases (p b)) [
    | inl y ↦ absurd (first y)
    | inr n ↦ rw n (choose-of_parts before c after passes rest na)
  ]

IsOnly-map :
    (P Q : Candidate → Type 0) (id : ℕ) (cs : List Candidate)
    → ((c : Candidate) → P c ↔ Q c)
    → IsOnly P id cs
    → IsOnly Q id cs
IsOnly-map P Q id cs f (before, (c, (after, (e, (same, (holds, (nb, na))))))) =
    (before, (c, (after, (e, (same, ((f c).0 holds, (each before nb, each after na)))))))
  where
    each : (l : List Candidate) → All (λ d. ¬ (P d)) l → All (λ d. ¬ (Q d)) l
    each [] h = tt
    each (d ∷ l) (first, rest) = ((λ q. first ((f d).1 q)), each l rest)

-- A shipment without a number and without a document has no source.
known-of_IsSource :
    (s : Shipment) (c : Candidate)
    → IsSource s c
    → (not (is_given (identifier s.invoice)) && is_empty (file_ids s.document)) ≡ false
known-of_IsSource s c p = elim p.common [
  | inl (i, (mine, other)) ↦ rw mine refl
  | inr (f, (mine, other)) ↦ not_empty (identifier s.invoice) (file_ids s.document) f mine
]
  where
    not_empty :
        (o : Option ℕ) (l : List ℕ) (f : ℕ)
        → includes f l ≡ true
        → (not (is_given o) && is_empty l) ≡ false
    not_empty o [] f h = cc
    not_empty none (x ∷ l) f h = refl
    not_empty (some n) (x ∷ l) f h = refl

-- A shipment is IDENTIFIED with a sale exactly if the sale is the only one of the candidates that it can
-- come from.
pub choose_shipment_source-identified_iff :
    (s : Shipment) (candidates : List Candidate) (id : ℕ)
    → (choose_shipment_source s candidates ≡ identified id) ↔ IsOnly (IsSource s) id candidates
unfolding choose_shipment_source
choose_shipment_source-identified_iff s candidates id = (to, from)
  where
    to : choose_shipment_source s candidates ≡ identified id → IsOnly (IsSource s) id candidates
    to h =
        elim (Bool-cases
          (not (is_given (identifier s.invoice)) && is_empty (file_ids s.document))) [
            | inl y ↦ absurd (differ (rw y at h))
            | inr n ↦
                IsOnly-map (Passes (is_match s)) (IsSource s) id candidates
                  (is_match-iff_IsSource s)
                  (IsOnly-of_choose (is_match s) candidates id (rw n at h))
          ]
      where
        differ : unresolved ≡ identified id → ⊥
        differ e = cc

    from : IsOnly (IsSource s) id candidates → choose_shipment_source s candidates ≡ identified id
    from only =
        let (b, (c, (a, (e, (same, (source, none_else)))))) = only in
        let (before, (d, (after, (e', (same', (passes, (nb, na))))))) =
          IsOnly-map (IsSource s) (Passes (is_match s)) id candidates
            (λ x. ((is_match-iff_IsSource s x).1, (is_match-iff_IsSource s x).0)) only in
        rw (known-of_IsSource s c source) (
          ap (λ l. choose (filter (is_match s) l)) e'
          ∙ choose-of_parts (is_match s) before d after passes nb na
          ∙ ap identified same')
