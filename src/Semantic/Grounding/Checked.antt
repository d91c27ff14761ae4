-- ===== src/Semantic/Grounding/Checked.antt =====
-- The whole validation: the sources are those of the deal, and the findings are grounded.
use amocrm_analytics.Base.{
  ℕ, ◌+◌, ◌≡◌, ap, Bool, true, false, ◌&&◌, ◌||◌, not, Option, none, some, List, [], ◌∷◌, ◌==◌, All,
  length, arith, Bool-cases, inl, inr,
}
use amocrm_analytics.Semantic.{validated, open_validation, invalid}
use amocrm_analytics.Semantic.Grounding.{
  Source, call_transcript, AnalysisRequest, AnalysisResponse, required_facts, is_kind, is_given,
}
use amocrm_analytics.Semantic.Grounding.Sources.{source_is_valid, check_sources}
use amocrm_analytics.Semantic.Grounding.Validate.{
  Graded, invalid_answer, graded, GroundedFinding, check_findings,
}
use amocrm_analytics.Semantic.Grounding.Quoted.{IsGrounded, check_findings-IsGrounded}
use amocrm_analytics.Semantic.Grounding.Answer.{
  is_task_check, stage_is_open, coverage_is_open, all_inspected, graded_validation, with_sources,
  validate_crm_control_semantic_response,
}

invalid-validated : ¬ (invalid ≡ validated)
invalid-validated e = cc

open-validated : ¬ (open_validation ≡ validated)
open-validated e = cc

module _ (text_hash : ℕ → ℕ) (contains : (text quote : ℕ) → Bool) (request : AnalysisRequest) where
  -- A source of the deal and its manager, with the hash of its text, and nothing that stays open.
  pub record IsTrusted (s : Source) : Type 0 where
    pub same_deal : (s.deal == request.deal) ≡ true
    pub same_owner : (s.owner == request.owner) ≡ true
    pub same_text : (s.source_hash == text_hash s.text) ≡ true
    pub not_spoken : is_kind s.kind call_transcript ≡ false
    pub not_risky : s.is_risky ≡ false

  none-some : {b : Bool} → ¬ (none ≡ some b)
  none-some e = cc

  some_value : {A : Type 0} {a b : A} → some a ≡ some b → a ≡ b
  some_value e = cc

  counted_sources-closed :
      (s : Source) (rest : Option Bool)
      → elim rest [
        | none ↦ none
        | some is_open ↦ some (is_kind s.kind call_transcript || (s.is_risky || is_open))
      ]
        ≡ some false
      → ((is_kind s.kind call_transcript ≡ false) × (s.is_risky ≡ false)) × (rest ≡ some false)
  counted_sources-closed s none e = absurd (none-some e)
  counted_sources-closed s (some is_open) e =
      let closed = some_value e in ((ground arith, ground arith), ap some (ground arith))

  check_sources-IsTrusted :
      (seen : List ℕ) (characters : ℕ) (ss : List Source)
      → check_sources text_hash request seen characters ss ≡ some false
      → All IsTrusted ss
  unfolding check_sources source_is_valid
  check_sources-IsTrusted seen characters [] e = tt
  check_sources-IsTrusted seen characters (s ∷ ss) e =
      elim (Bool-cases (not (source_is_valid text_hash request seen (characters + s.size) s))) [
        | inl y ↦ absurd (none-some (rw y at e))
        | inr n ↦
            let rest = check_sources text_hash request (s.id ∷ seen) (characters + s.size) ss in
            let settled = counted_sources-closed s rest (rw n at e) in
            (
              record {
                same_deal = ground arith;
                same_owner = ground arith;
                same_text = ground arith;
                not_spoken = settled.0.0;
                not_risky = settled.0.1;
              },
              check_sources-IsTrusted (s.id ∷ seen) (characters + s.size) ss settled.1,
            )
      ]

  graded_validation-AreGrounded :
      (is_open : Bool) (g : Graded (List GroundedFinding))
      → ((fs : List GroundedFinding) → g ≡ graded fs false → All (IsGrounded contains request) fs)
      → (graded_validation request is_open g).status ≡ validated
      → (is_open ≡ false)
        × All (IsGrounded contains request) (graded_validation request is_open g).findings
  graded_validation-AreGrounded is_open invalid_answer h e = absurd (invalid-validated e)
  graded_validation-AreGrounded is_open (graded fs o) h e =
      elim (Bool-cases (is_open || (o || coverage_is_open request fs request.check))) [
        | inl y ↦ absurd (open-validated (rw y at e))
        | inr n ↦ (ground arith, h fs (ap (graded fs) (ground arith)))
      ]

  from_graded :
      {A : Type 0} (is_open : Bool)
      → ((is_open || stage_is_open request) ≡ false) × A
      → (some is_open ≡ some false) × A
  from_graded is_open (closed, a) = (ap some (ground arith), a)

  with_sources-AreGrounded :
      (response : AnalysisResponse) (found : Option Bool)
      → (with_sources text_hash contains request response found).status ≡ validated
      → (found ≡ some false)
        × All
            (IsGrounded contains request)
            (with_sources text_hash contains request response found).findings
  with_sources-AreGrounded response none e = absurd (invalid-validated e)
  with_sources-AreGrounded response (some is_open) e =
      elim (Bool-cases (
        not response.is_well_formed
        || (not response.same_request
            || not (length response.findings == length (required_facts request.check))))) [
              | inl y ↦ absurd (invalid-validated (rw y at e))
              | inr n ↦ elim (Bool-cases (not (all_inspected request.sources response.inspected))) [
                | inl y ↦ absurd (invalid-validated (rw (n, y) at e))
                | inr seen ↦
                    rw (n, seen)
                      (from_graded is_open (
                        graded_validation-AreGrounded (is_open || stage_is_open request)
                          (check_findings contains request [] response.findings)
                          (check_findings-IsGrounded contains request [] response.findings)
                          (rw (n, seen) at e)))
              ]
            ]

-- A validated answer has trusted sources, and every finding of it is grounded.
pub validate_crm_control_semantic_response-AreGrounded :
    (text_hash : ℕ → ℕ) (contains : (text quote : ℕ) → Bool) (request : AnalysisRequest)
    (response : AnalysisResponse)
    → (validate_crm_control_semantic_response text_hash contains request response).status
      ≡ validated
    → All (IsTrusted text_hash contains request) request.sources
      × All
          (IsGrounded contains request)
          (validate_crm_control_semantic_response text_hash contains request response).findings
unfolding validate_crm_control_semantic_response
validate_crm_control_semantic_response-AreGrounded text_hash contains request response e =
    elim (Bool-cases (
      not request.is_well_formed
      || (not request.dates_are_valid
          || ((is_task_check request.check && not (is_given request.subject))
              || not request.zone_is_known)))) [
                | inl y ↦ absurd (invalid-validated (rw y at e))
                | inr n ↦
                    let found = check_sources text_hash request [] 0 request.sources in
                    let (closed, findings) =
                      with_sources-AreGrounded text_hash contains request response found
                        (rw n at e) in
                    (
                      check_sources-IsTrusted text_hash contains request [] 0 request.sources
                          closed,
                      rw n findings,
                    )
              ]
