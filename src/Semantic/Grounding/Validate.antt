-- ===== src/Semantic/Grounding/Validate.antt =====
-- The loops of the validation over the citations of a finding, and over the findings.
use amocrm_analytics.Base.{
  ℕ, Bool, true, false, ◌&&◌, ◌||◌, not, Option, none, some, List, [], ◌∷◌, leb, ◌==◌, any, all,
  if◌then◌else◌,
}
use amocrm_analytics.Semantic.{
  FactState, uncertain, FactDate, on_day, at_minute, Fact, presentation_date, manager_note,
  transfer_reason, customer_agreement, agreed_deadline, is_present_state, is_absent_state,
}
use amocrm_analytics.Semantic.Grounding.{
  Source, note_source, customer_message, supplier_message, message, call_transcript, Actor, bot,
  unknown_actor, Direction, unknown_direction, AnalysisRequest, Citation, FindingInput, fact_number,
  required_facts, is_given, is_kind, is_task_fact, supports_fact,
}

-- `invalid_answer` ends the validation; otherwise there is a value, and whether something is left open.
pub data Graded {ℓ} (A : Type ℓ) : Type ℓ where
  invalid_answer : Graded A
  graded : A → (is_open : Bool) → Graded A

abbrev is_note_fact : Fact → Bool
is_note_fact manager_note = true
is_note_fact transfer_reason = true
is_note_fact presentation_date = true
is_note_fact _ = false

abbrev is_bot : Actor → Bool
is_bot bot = true
is_bot _ = false

abbrev is_unknown : Actor → Bool
is_unknown unknown_actor = true
is_unknown _ = false

abbrev has_no_direction : Direction → Bool
has_no_direction unknown_direction = true
has_no_direction _ = false

abbrev could_contain : Source → Fact → Bool
could_contain s fact =
    if is_note_fact fact
    then is_kind s.kind note_source
    else is_kind s.kind customer_message
      || (is_kind s.kind supplier_message
          || (is_kind s.kind message || is_kind s.kind call_transcript))

unfoldable pub has_uncertain_attribution : Source → Fact → Bool
has_uncertain_attribution s fact =
    if is_task_fact fact || is_bot s.actor
    then false
    else could_contain s fact
      && (is_unknown s.actor
          || (not (is_given s.actor_id)
              || (not (is_note_fact fact) && has_no_direction s.direction)))

-- `createdAt` is an instant that is not after the observation.
abbrev pub dated_by : Option ℕ → ℕ → Bool
dated_by none observed_at = false
dated_by (some t) observed_at = leb t observed_at

abbrev since : Option ℕ → Option ℕ → Bool
since (some entered) (some t) = leb entered t
since _ _ = false

abbrev pub in_window : AnalysisRequest → Fact → Source → Bool
in_window request fact s =
    dated_by s.created_at request.observed_at
    && (is_task_fact fact || since request.stage_entered_at s.created_at)

abbrev pub find_source : ℕ → List Source → Option Source
find_source id [] = none
find_source id (s ∷ ss) = if s.id == id then some s else find_source id ss

abbrev pub is_date_fact : Fact → Bool
is_date_fact presentation_date = true
is_date_fact agreed_deadline = true
is_date_fact _ = false

abbrev pub is_agreement_fact : Fact → Bool
is_agreement_fact customer_agreement = true
is_agreement_fact agreed_deadline = true
is_agreement_fact _ = false

pub record Witness : Type 0 where
  pub source : Source
  pub citation : Citation

-- A finding of the result, with the witnesses among its citations.
pub record GroundedFinding : Type 0 where
  pub fact : Fact
  pub state : FactState
  pub evidence : List Citation
  pub witnesses : List Witness
  pub date : Option FactDate

abbrev pub then_open : Graded (List Witness) → (is_open : Bool) → Graded (List Witness)
then_open invalid_answer open_before = invalid_answer
then_open (graded ws open_later) open_before = graded ws (open_before || open_later)

abbrev pub with_witness : Witness → Graded (List Witness) → Graded (List Witness)
with_witness w invalid_answer = invalid_answer
with_witness w (graded ws is_open) = graded (w ∷ ws) is_open

abbrev earliest : List Witness → Option ℕ
earliest [] = none
earliest (w ∷ ws) = elim w.source.created_at [
  | none ↦ earliest ws
  | some t ↦ elim (earliest ws) [ none ↦ some t | some u ↦ some (if leb t u then t else u) ]
]

abbrev pub same_date : Option FactDate → Option FactDate → Bool
same_date (some (on_day a)) (some (on_day b)) = a == b
same_date (some (at_minute a)) (some (at_minute b)) = a == b
same_date _ _ = false

-- The one date that all the quotes give.
abbrev pub common_date : List Witness → Option FactDate
common_date [] = none
common_date (w ∷ ws) =
    if all (λ v. same_date v.citation.date w.citation.date) (w ∷ ws) then w.citation.date else none

abbrev pub is_uncertain : FactState → Bool
is_uncertain uncertain = true
is_uncertain _ = false

abbrev pub no_witness : List Witness → Bool
no_witness [] = true
no_witness (_ ∷ _) = false

abbrev pub has_date : Option FactDate → Bool
has_date none = false
has_date (some d) = true

abbrev pub needs_date : FindingInput → Bool
needs_date item = is_present_state item.state && is_date_fact item.fact

module _ (contains : (text quote : ℕ) → Bool) (request : AnalysisRequest) where
  abbrev pub with_source :
      Fact → Citation → Option Source → Graded (List Witness) → Graded (List Witness)
  with_source fact c none rest = invalid_answer
  with_source fact c (some s) rest =
      if not (s.source_hash == c.source_hash) || not (contains s.text c.quote)
      then invalid_answer
      else if not (in_window request fact s)
      then then_open rest true
      else if supports_fact s fact request
      then with_witness (record { source = s; citation = c }) rest
      else rest

  -- The witnesses among the citations.
  unfoldable pub check_evidence : Fact → List Citation → Graded (List Witness)
  check_evidence fact [] = graded [] false
  check_evidence fact (c ∷ cs) =
      let rest = check_evidence fact cs in
      if not c.is_well_formed
      then invalid_answer
      else with_source fact c (find_source c.source_id request.sources) rest

abbrev pub with_finding :
    Graded GroundedFinding → Graded (List GroundedFinding) → Graded (List GroundedFinding)
with_finding (graded f open_here) (graded fs open_later) = graded (f ∷ fs) (open_here || open_later)
with_finding _ _ = invalid_answer

module _ (request : AnalysisRequest) where
  -- A later source in which the customer takes the agreement back.
  abbrev is_taken_back : Fact → Option ℕ → Bool
  is_taken_back fact none = false
  is_taken_back fact (some witnessed_at) =
      any
        (λ s.
          supports_fact s fact request
          && (dated_by s.created_at request.observed_at
              && (since (some witnessed_at) s.created_at && s.takes_back)))
        request.sources

  -- An absence that the sources cannot show.
  abbrev pub absence_is_open : Fact → Bool
  absence_is_open fact =
      any (λ s. supports_fact s fact request && not (dated_by s.created_at request.observed_at))
        request.sources
      || any (λ s. has_uncertain_attribution s fact) request.sources

  -- What a finding leaves open.
  unfoldable pub finding_is_open : FindingInput → List Witness → Bool
  finding_is_open item ws =
      is_uncertain item.state
      || ((is_present_state item.state && no_witness ws)
          || ((is_present_state item.state
                && (is_agreement_fact item.fact && is_taken_back item.fact (earliest ws)))
              || ((is_absent_state item.state && absence_is_open item.fact)
                  || (needs_date item && not (has_date (common_date ws))))))

  abbrev pub with_witnesses : FindingInput → Graded (List Witness) → Graded GroundedFinding
  with_witnesses item invalid_answer = invalid_answer
  with_witnesses item (graded ws is_open) =
      if needs_date item
        && (has_date (common_date ws)
            && (has_date item.date && not (same_date item.date (common_date ws))))
      then invalid_answer
      else graded
          (record {
            fact = item.fact;
            state = item.state;
            evidence = item.evidence;
            witnesses = ws;
            date = if needs_date item then common_date ws else none;
          })
          (is_open || finding_is_open item ws)

module _ (contains : (text quote : ℕ) → Bool) (request : AnalysisRequest) where
  unfoldable pub check_finding : (seen : List Fact) → FindingInput → Graded GroundedFinding
  check_finding seen item =
      if not item.is_well_formed
        || (not (any (λ f. fact_number f == fact_number item.fact) (required_facts request.check))
            || any (λ f. fact_number f == fact_number item.fact) seen)
      then invalid_answer
      else if not item.date_is_well_formed
      then invalid_answer
      else with_witnesses request item (check_evidence contains request item.fact item.evidence)

  unfoldable pub check_findings :
      (seen : List Fact) → List FindingInput → Graded (List GroundedFinding)
  check_findings seen [] = graded [] false
  check_findings seen (item ∷ items) =
      with_finding (check_finding seen item) (check_findings (item.fact ∷ seen) items)
