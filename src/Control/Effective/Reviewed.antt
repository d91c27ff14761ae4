-- ===== src/Control/Effective/Reviewed.antt =====
-- What an accepted review means for the status of the result, and for a second review.
use amocrm_analytics.Base.{
  ℕ, ◌≤◌, ◌<◌, ◌≡◌, ◌≢◌, ◌∙◌, refl, sym, ap, Bool, true, false, Option, none, some, List, [], ◌∷◌,
  ◌==◌, filter, All, arith, if◌then◌else◌, Bool-cases, inl, inr,
}
use amocrm_analytics.Control.Types.{ResultStatus}
use amocrm_analytics.Control.Cases.{Role}
use amocrm_analytics.Control.Effective.{
  Decision, newer, insert_decision, sort_decisions, head, newest_decision, AnalysisIdentity,
  AssessedResult, decisions_of, applies, effective_status,
}
use amocrm_analytics.Control.Effective.Manual.{
  own_decisions, ManualReviewInput, ReviewState, reviewed, id_of, after_last, with_decision,
  review_decision, review_result, manual_review_state,
}

-- The newer of a decision and the newest of the others.
abbrev pick : Decision → Option Decision → Option Decision
pick d none = some d
pick d (some e) = if newer e d then some e else some d

head-insert_decision :
    (d : Decision) (es : List Decision) → head (insert_decision d es) ≡ pick d (head es)
head-insert_decision d [] = refl
head-insert_decision d (e ∷ es) = elim (Bool-cases (newer e d)) [
  | inl y ↦ rw y refl
  | inr n ↦ rw n refl
]

newest_decision-cons :
    (d : Decision) (ds : List Decision) → newest_decision (d ∷ ds) ≡ pick d (newest_decision ds)
unfolding newest_decision
newest_decision-cons d ds = head-insert_decision d (sort_decisions ds)

abbrev time_of : Option Decision → ℕ
time_of none = 0
time_of (some d) = d.created_at

pick-le : (d : Decision) (o : Option Decision) → d.created_at ≤ time_of (pick d o)
pick-le d none = omega arith
pick-le d (some e) = ground arith

le-pick : (d : Decision) (o : Option Decision) → time_of o ≤ time_of (pick d o)
le-pick d none = omega arith
le-pick d (some e) = ground arith

abbrev UpTo : ℕ → Decision → Type 0
UpTo t d = d.created_at ≤ t

newest_decision-UpTo :
    (t : ℕ) (ds : List Decision) → time_of (newest_decision ds) ≤ t → All (UpTo t) ds
newest_decision-UpTo t [] h = tt
newest_decision-UpTo t (d ∷ ds) h =
    let both : time_of (pick d (newest_decision ds)) ≤ t = rw (newest_decision-cons d ds) at h in
    (
      omega (arith, pick-le d (newest_decision ds)),
      newest_decision-UpTo t ds (omega (arith, le-pick d (newest_decision ds))),
    )

abbrev Before : ℕ → Decision → Type 0
Before t d = d.created_at < t

UpTo-Before : (s t : ℕ) (ds : List Decision) → s < t → All (UpTo s) ds → All (Before t) ds
UpTo-Before s t [] h a = tt
UpTo-Before s t (d ∷ ds) h (first, rest) = (omega arith, UpTo-Before s t ds h rest)

pick-lt :
    (t : ℕ) (d : Decision) (o : Option Decision)
    → 0 < t
    → d.created_at < t
    → time_of o < t
    → time_of (pick d o) < t
pick-lt t d none h hd ho = hd
pick-lt t d (some e) h hd ho = ground arith

newest_decision-Before :
    (t : ℕ) (ds : List Decision) → 0 < t → All (Before t) ds → time_of (newest_decision ds) < t
unfolding newest_decision
newest_decision-Before t [] h a = h
newest_decision-Before t (d ∷ ds) h (first, rest) =
    rw (newest_decision-cons d ds)
      (pick-lt t d (newest_decision ds) h first (newest_decision-Before t ds h rest))

pick-of_lt : (d : Decision) (o : Option Decision) → time_of o < d.created_at → pick d o ≡ some d
pick-of_lt d none h = refl
pick-of_lt d (some e) h = ground arith

-- A decision that is later than all others is the newest.
newest_decision-of_Before :
    (d : Decision) (ds : List Decision)
    → 0 < d.created_at
    → All (Before d.created_at) ds
    → newest_decision (d ∷ ds) ≡ some d
newest_decision-of_Before d ds h a =
    newest_decision-cons d ds
    ∙ pick-of_lt d (newest_decision ds) (newest_decision-Before d.created_at ds h a)

-- A decision that counts is one on the same observation or was made before it.
applies-own :
    (status : ResultStatus) (observation_id observed_at : ℕ) (d : Decision)
    → applies status observation_id observed_at d ≡ true
    → (d.observation_id == observation_id) ≡ false
    → d.created_at ≤ observed_at
applies-own status observation_id observed_at d a o = ground arith

applies-Before :
    (status : ResultStatus) (observation_id observed_at s t : ℕ) (ds : List Decision)
    → s < t
    → observed_at < t
    → All (UpTo s) (filter (λ d. d.observation_id == observation_id) ds)
    → All (Before t) (filter (applies status observation_id observed_at) ds)
applies-Before status observation_id observed_at s t [] hs ho a = tt
applies-Before status observation_id observed_at s t (d ∷ ds) hs ho a =
    elim (Bool-cases (d.observation_id == observation_id)) [
      | inl own ↦
          let (first, rest) : (d.created_at ≤ s)
              × All (UpTo s) (filter (λ e. e.observation_id == observation_id) ds) =
            rw own at a in
          let later = applies-Before status observation_id observed_at s t ds hs ho rest in
          let early : d.created_at < t = omega arith in
          elim (Bool-cases (applies status observation_id observed_at d)) [
            | inl y ↦ rw y (early, later)
            | inr n ↦ rw n later
          ]
      | inr other ↦
          let rest : All (UpTo s) (filter (λ e. e.observation_id == observation_id) ds) =
            rw other at a in
          let later = applies-Before status observation_id observed_at s t ds hs ho rest in
          elim (Bool-cases (applies status observation_id observed_at d)) [
            | inl y ↦
                let early = applies-own status observation_id observed_at d y other in
                rw y (omega arith, later)
            | inr n ↦ rw n later
          ]
    ]

after_last-later :
    (observed_at now : ℕ) (o : Option Decision)
    → observed_at < now
    → (observed_at < after_last now o) × (time_of o < after_last now o)
after_last-later observed_at now none h = (h, omega arith)
after_last-later observed_at now (some d) h = (omega arith, omega arith)

-- The review decision comes first of those that count.
filter-review_decision :
    (observed_at id now : ℕ) (body : ManualReviewInput) (r : AssessedResult)
    → observed_at < now
    → newest_decision (
        filter
          (applies r.status r.observation_id observed_at)
          (review_decision id now body r ∷ decisions_of r.case_of))
      ≡ some (review_decision id now body r)
filter-review_decision observed_at id now body r h =
    let own : (r.observation_id == r.observation_id) ≡ true = ground arith in
    let (later, last) = after_last-later observed_at now (newest_decision (own_decisions r)) h in
    rw own (
      newest_decision-of_Before (review_decision id now body r)
        (filter (applies r.status r.observation_id observed_at) (decisions_of r.case_of))
        (omega arith)
        (applies-Before r.status r.observation_id observed_at
          (time_of (newest_decision (own_decisions r)))
          (after_last now (newest_decision (own_decisions r))) (decisions_of r.case_of) last later
          (newest_decision-UpTo _ (own_decisions r) (omega arith))))

effective_status-with_decision :
    (options : Option AnalysisIdentity) (observed_at id now : ℕ) (body : ManualReviewInput)
    (r : AssessedResult)
    → observed_at < now
    → effective_status options (with_decision r (review_decision id now body r)) observed_at
      ≡ body.outcome
unfolding effective_status
effective_status-with_decision options observed_at id now body r h =
    rw (filter-review_decision observed_at id now body r h) refl

own-Before :
    (id now : ℕ) (body : ManualReviewInput) (r : AssessedResult)
    → 0 < now
    → newest_decision (own_decisions (with_decision r (review_decision id now body r)))
      ≡ some (review_decision id now body r)
own-Before id now body r h =
    let own : (r.observation_id == r.observation_id) ≡ true = ground arith in
    let (later, last) = after_last-later 0 now (newest_decision (own_decisions r)) h in
    rw own (
      newest_decision-of_Before (review_decision id now body r) (own_decisions r) later (
        UpTo-Before (time_of (newest_decision (own_decisions r))) _ (own_decisions r) last
          (newest_decision-UpTo _ (own_decisions r) (omega arith))))

module _ (visible has_result screenshots : Bool) (role : Role) (body : ManualReviewInput)
    (id now : ℕ) (before after : ReviewState)
    (e : review_result visible has_result screenshots role body id now before
      ≡ reviewed after) where
  written :
      after.row.result
      ≡ with_decision before.row.result (review_decision id now body before.row.result)
  unfolding review_result
  written = ground arith

  expected : id_of (newest_decision (own_decisions before.row.result)) ≡ body.expected_decision_id
  unfolding review_result
  expected = ground arith

  next_id : 0 < now → id_of (newest_decision (own_decisions after.row.result)) ≡ some id
  next_id h =
      ap (λ r. id_of (newest_decision (own_decisions r))) written
      ∙ ap id_of (own-Before id now body before.row.result h)

  -- An accepted review decides the status of the result: whatever the decisions and the analysis before
  -- it said, for an observation that was made before the review the status is the reviewer's outcome,
  -- and the next review must name this one.
  pub review_result-effective_status :
      (options : Option AnalysisIdentity) (observed_at : ℕ)
      → observed_at < now
      → (effective_status options after.row.result observed_at ≡ body.outcome)
        × ((manual_review_state after.row).expected_decision_id ≡ some id)
  unfolding manual_review_state
  review_result-effective_status options observed_at h = (
    ap (λ r. effective_status options r observed_at) written
        ∙ effective_status-with_decision options observed_at id now body before.row.result h,
    next_id (omega arith),
  )

-- Of two reviews that name the same latest decision only one is accepted: after the first, the second
-- is not, whoever sends it and whenever.
pub review_result-once :
    (visible has_result screenshots : Bool) (role : Role) (body : ManualReviewInput) (id now : ℕ)
    (before after : ReviewState) (visible' has_result' screenshots' : Bool) (role' : Role)
    (body' : ManualReviewInput) (id' now' : ℕ) (later : ReviewState)
    → 0 < now
    → review_result visible has_result screenshots role body id now before ≡ reviewed after
    → body.expected_decision_id ≢ some id
    → body'.expected_decision_id ≡ body.expected_decision_id
    → review_result visible' has_result' screenshots' role' body' id' now' after ≢ reviewed later
review_result-once visible has_result screenshots role body id now before after visible' has_result'
      screenshots' role' body' id' now' later h e fresh same e' =
    fresh (
      sym same
      ∙ sym (expected visible' has_result' screenshots' role' body' id' now' after later e')
      ∙ next_id visible has_result screenshots role body id now before after e h)
