-- ===== src/Semantic/Verdicts.antt =====
-- When the analysis excuses a deal, and when it accuses it.
use amocrm_analytics.Base.{
  ℕ, ◌≡◌, ◌⊎◌, inl, inr, refl, Bool, true, false, ◌&&◌, not, Option, none, some, arith,
  if◌then◌else◌, Bool-cases,
}
use amocrm_analytics.Control.Types.{ResultStatus, pass, fail, unknown}
use amocrm_analytics.Semantic.{
  Check, task_action, proposal_note, deadline_agreement, price_delay, AnalysedRule, task_text_rule,
  proposal_note_rule, task_stage_deadline_rule, stage_duration_rule, price_requested_rule, Fact,
  action, stage_relevance, transfer_reason, presentation_date, manager_note, customer_agreement,
  agreed_deadline, price_delay_reason, FactDate, Finding, Validation, Request, is_absent,
  is_present, date_of, is_validated, is_known, is_agreement, is_deadline_rule, has_fact_date,
  date_covers, covered, target_of, assess_task, assess_proposal, assess_deadline, assess_price,
  assess_facts, assess_crm_control_semantic,
}

module _ (civil : ℕ → ℕ) where
  -- The facts that excuse a deal, by the check.
  abbrev pub Excuses : (Fact → Option Finding) → Request → Check → AnalysedRule → Type 0
  Excuses finding request task_action rule =
      (is_present (finding action) ≡ true) × (is_present (finding stage_relevance) ≡ true)
  Excuses finding request proposal_note rule =
      (is_present (finding transfer_reason) ≡ true)
      × (is_present (finding presentation_date) ≡ true)
      × (covered civil (date_of (finding presentation_date)) request.observed_at ≡ true)
  Excuses finding request deadline_agreement rule =
      (is_present (finding manager_note) ≡ true)
      × (is_present (finding customer_agreement) ≡ true)
      × (is_present (finding agreed_deadline) ≡ true)
      × (covered civil (date_of (finding agreed_deadline)) (target_of civil rule request) ≡ true)
  Excuses finding request price_delay rule =
      (is_known request.max_due_at ≡ true) × (is_present (finding price_delay_reason) ≡ true)

  facts-Excuses :
      (finding : Fact → Option Finding) (request : Request) (check : Check) (rule : AnalysedRule)
      → assess_facts civil finding request check rule ≡ pass
      → Excuses finding request check rule
  unfolding assess_facts assess_task assess_proposal assess_deadline assess_price
  facts-Excuses finding request task_action task_text_rule h = ground arith
  facts-Excuses finding request proposal_note proposal_note_rule h = ground arith
  facts-Excuses finding request deadline_agreement task_stage_deadline_rule h = ground arith
  facts-Excuses finding request deadline_agreement stage_duration_rule h = ground arith
  facts-Excuses finding request price_delay price_requested_rule h = ground arith
  facts-Excuses finding request _ _ h = cc

  -- There is a date, and it does not cover the target.
  abbrev pub IsLate : Option FactDate → Option ℕ → Type 0
  IsLate none target = ⊥
  IsLate (some d) target = date_covers civil d target ≡ false

  -- The facts that accuse a deal, by the check.
  abbrev pub Accuses : (Fact → Option Finding) → Request → Check → AnalysedRule → Type 0
  Accuses finding request task_action rule =
      (is_absent (finding action) ≡ true) ⊎ (is_absent (finding stage_relevance) ≡ true)
  Accuses finding request proposal_note rule =
      (is_absent (finding transfer_reason) ≡ true)
      ⊎ ((is_absent (finding presentation_date) ≡ true)
          ⊎ ((is_present (finding transfer_reason) ≡ true)
              × (is_present (finding presentation_date) ≡ true)
              × IsLate (date_of (finding presentation_date)) request.observed_at))
  Accuses finding request deadline_agreement rule =
      (is_absent (finding manager_note) ≡ true)
      ⊎ ((is_absent (finding customer_agreement) ≡ true)
          ⊎ ((is_absent (finding agreed_deadline) ≡ true)
              ⊎ ((is_present (finding manager_note) ≡ true)
                  × (is_present (finding customer_agreement) ≡ true)
                  × (is_present (finding agreed_deadline) ≡ true)
                  × (is_known (target_of civil rule request) ≡ true)
                  × IsLate (date_of (finding agreed_deadline)) (target_of civil rule request))))
  Accuses finding request price_delay rule = is_absent (finding price_delay_reason) ≡ true

  not_covered-IsLate :
      (d : Option FactDate) (target : Option ℕ)
      → has_fact_date civil d ≡ true
      → covered civil d target ≡ false
      → IsLate d target
  not_covered-IsLate none target h k = cc
  not_covered-IsLate (some d) target h k = k

  proposal-Accuses :
      (finding : Fact → Option Finding) (request : Request)
      → assess_proposal civil finding request ≡ fail
      → Accuses finding request proposal_note proposal_note_rule
  unfolding assess_proposal
  proposal-Accuses finding request h = elim (Bool-cases (is_absent (finding transfer_reason))) [
    | inl a ↦ inl a
    | inr n ↦ elim (Bool-cases (is_absent (finding presentation_date))) [
      | inl a ↦ inr (inl a)
      | inr m ↦
          inr
            (inr (ground arith, ground arith, not_covered-IsLate _ _ (ground arith) (ground arith)))
    ]
  ]

  deadline-Accuses :
      (finding : Fact → Option Finding) (request : Request) (rule : AnalysedRule)
      → assess_deadline civil finding request rule ≡ fail
      → Accuses finding request deadline_agreement rule
  unfolding assess_deadline
  deadline-Accuses finding request rule h = elim (Bool-cases (is_absent (finding manager_note))) [
    | inl a ↦ inl a
    | inr n ↦ elim (Bool-cases (is_absent (finding customer_agreement))) [
      | inl a ↦ inr (inl a)
      | inr m ↦ elim (Bool-cases (is_absent (finding agreed_deadline))) [
        | inl a ↦ inr (inr (inl a))
        | inr k ↦ inr (
            inr (
              inr (
                ground arith,
                ground arith,
                ground arith,
                ground arith,
                not_covered-IsLate _ _ (ground arith) (ground arith),
              )))
      ]
    ]
  ]

  facts-Accuses :
      (finding : Fact → Option Finding) (request : Request) (check : Check) (rule : AnalysedRule)
      → assess_facts civil finding request check rule ≡ fail
      → Accuses finding request check rule
  unfolding assess_facts assess_task assess_price
  facts-Accuses finding request task_action task_text_rule h = ground arith
  facts-Accuses finding request proposal_note proposal_note_rule h =
      proposal-Accuses finding request h
  facts-Accuses finding request deadline_agreement task_stage_deadline_rule h =
      deadline-Accuses finding request task_stage_deadline_rule h
  facts-Accuses finding request deadline_agreement stage_duration_rule h =
      deadline-Accuses finding request stage_duration_rule h
  facts-Accuses finding request price_delay price_requested_rule h = ground arith
  facts-Accuses finding request _ _ h = cc

  by_facts :
      (validation : Validation) (facts : ResultStatus) (same accused valid : Bool)
      (s : ResultStatus)
      → (if not same
          then unknown
          else if accused
          then fail
          else if not valid
          then unknown
          else facts)
        ≡ s
      → (s ≡ pass → (same ≡ true) × (valid ≡ true) × (facts ≡ pass))
        × (s ≡ fail → (same ≡ true) × ((accused ≡ true) ⊎ (facts ≡ fail)))
  by_facts validation facts same accused valid s h = ground arith

  -- The analysis excuses a deal only on a validated answer to the very request, with every fact that the
  -- check asks for found present: the next step and its fit to the stage; the reason and a date of the
  -- presentation that is not over; a note and an agreement whose date covers the target; or the
  -- reason of the delay.
  pub assess_crm_control_semantic-Excuses :
      (proof : Bool) (request : Request) (validation : Validation) (rule : AnalysedRule)
      → assess_crm_control_semantic civil proof request validation rule ≡ pass
      → (validation.same_request ≡ true)
        × (is_validated validation.status ≡ true)
        × Excuses validation.finding request request.check rule
  unfolding assess_crm_control_semantic
  assess_crm_control_semantic-Excuses proof request validation rule h =
      let (same, valid, facts) = (by_facts validation _ validation.same_request _ _ _ h).0 refl in
      (same, valid, facts-Excuses validation.finding request request.check rule facts)

  accused_without_note :
      (finding : Fact → Option Finding) (request : Request) (check : Check) (rule : AnalysedRule)
      (valid proof : Bool)
      → valid
          && (is_agreement check
              && (is_deadline_rule rule && (is_absent (finding manager_note) && proof)))
        ≡ true
      → Accuses finding request check rule
  accused_without_note finding request task_action rule valid proof h = ground arith
  accused_without_note finding request proposal_note rule valid proof h = ground arith
  accused_without_note finding request deadline_agreement rule valid proof h = ground arith
  accused_without_note finding request price_delay rule valid proof h = ground arith

  -- The analysis accuses a deal only on an answer to the very request: a fact that the check asks for is
  -- absent in it, or all are present, with a date that does not cover its target; a fact that is neither
  -- absent nor present accuses nobody.
  pub assess_crm_control_semantic-Accuses :
      (proof : Bool) (request : Request) (validation : Validation) (rule : AnalysedRule)
      → assess_crm_control_semantic civil proof request validation rule ≡ fail
      → (validation.same_request ≡ true) × Accuses validation.finding request request.check rule
  unfolding assess_crm_control_semantic
  assess_crm_control_semantic-Accuses proof request validation rule h =
      let (same, why) = (by_facts validation _ validation.same_request _ _ _ h).1 refl in
      (
        same,
        elim why [
          | inl accused ↦
              accused_without_note validation.finding request request.check rule _ proof accused
          | inr facts ↦ facts-Accuses validation.finding request request.check rule facts
        ],
      )
