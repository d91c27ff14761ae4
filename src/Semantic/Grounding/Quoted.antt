-- ===== src/Semantic/Grounding/Quoted.antt =====
-- A validated answer rests on quotes of sources that may show what it says.
use amocrm_analytics.Base.{
  ℕ, ◌≡◌, refl, ap, Bool, true, false, ◌&&◌, ◌||◌, not, Option, none, some, List, [], ◌∷◌, ◌==◌,
  All, any, arith, if◌then◌else◌, Bool-cases, inl, inr,
}
use mathlib.Core.Path.{subst}
use amocrm_analytics.Semantic.{Fact, is_present_state, is_absent_state}
use amocrm_analytics.Semantic.Grounding.{
  Source, AnalysisRequest, Citation, FindingInput, supports_fact, fact_number, required_facts,
}
use amocrm_analytics.Semantic.Grounding.Validate.{
  Graded, invalid_answer, graded, Witness, GroundedFinding, in_window, find_source, with_source,
  check_evidence, no_witness, is_uncertain, has_date, needs_date, common_date, same_date,
  absence_is_open, finding_is_open, with_witnesses, check_finding, with_finding, check_findings,
  is_date_fact,
}

module _ {ℓ} {A : Type ℓ} where
  graded_value : {a b : A} {o p : Bool} → graded a o ≡ graded b p → a ≡ b
  graded_value e = cc

  graded_open : {a b : A} {o p : Bool} → graded a o ≡ graded b p → o ≡ p
  graded_open e = cc

  invalid-graded : {a : A} {o : Bool} → ¬ (invalid_answer ≡ graded a o)
  invalid-graded e = cc

module _ (contains : (text quote : ℕ) → Bool) (request : AnalysisRequest) where
  -- The quote stands in a source of the request that may show the fact, from the time in question.
  pub record IsWitness (fact : Fact) (w : Witness) : Type 0 where
    pub in_request : find_source w.citation.source_id request.sources ≡ some w.source
    pub same_hash : (w.source.source_hash == w.citation.source_hash) ≡ true
    pub quoted : contains w.source.text w.citation.quote ≡ true
    pub in_time : in_window request fact w.source ≡ true
    pub supported : supports_fact w.source fact request ≡ true

  with_source-IsWitness :
      (fact : Fact) (c : Citation) (found : Option Source) (rest : Graded (List Witness))
      (ws : List Witness) (is_open : Bool)
      → find_source c.source_id request.sources ≡ found
      → ((vs : List Witness) (o : Bool) → rest ≡ graded vs o → All (IsWitness fact) vs)
      → with_source contains request fact c found rest ≡ graded ws is_open
      → All (IsWitness fact) ws
  with_source-IsWitness fact c none rest ws is_open f h e = cc
  with_source-IsWitness fact c (some s) invalid_answer ws is_open f h e = absurd (ground arith)
  with_source-IsWitness fact c (some s) (graded vs o) ws is_open f h e =
      elim (Bool-cases (not (s.source_hash == c.source_hash) || not (contains s.text c.quote))) [
        | inl y ↦ absurd (invalid-graded (rw y at e))
        | inr n ↦ elim (Bool-cases (not (in_window request fact s))) [
          | inl y ↦ subst (All (IsWitness fact)) (graded_value (rw (n, y) at e)) (h vs o refl)
          | inr inside ↦ elim (Bool-cases (supports_fact s fact request)) [
            | inl y ↦
                let w : Witness = record { source = s; citation = c } in
                let here : IsWitness fact w = record {
                  in_request = f;
                  same_hash = ground arith;
                  quoted = ground arith;
                  in_time = ground arith;
                  supported = y;
                } in
                subst (All (IsWitness fact)) (graded_value (rw (n, inside, y) at e))
                  (here, h vs o refl)
            | inr w ↦
                subst (All (IsWitness fact)) (graded_value (rw (n, inside, w) at e)) (h vs o refl)
          ]
        ]
      ]

  check_evidence-IsWitness :
      (fact : Fact) (cs : List Citation) (ws : List Witness) (is_open : Bool)
      → check_evidence contains request fact cs ≡ graded ws is_open
      → All (IsWitness fact) ws
  unfolding check_evidence
  check_evidence-IsWitness fact [] ws is_open e = subst (All (IsWitness fact)) (graded_value e) tt
  check_evidence-IsWitness fact (c ∷ cs) ws is_open e = elim (Bool-cases (not c.is_well_formed)) [
    | inl y ↦ absurd (invalid-graded (rw y at e))
    | inr n ↦
        with_source-IsWitness fact c (find_source c.source_id request.sources)
          (check_evidence contains request fact cs) ws is_open refl
          (check_evidence-IsWitness fact cs) (rw n at e)
  ]

  -- What a finding of a validated answer rests on.
  pub record IsGrounded (f : GroundedFinding) : Type 0 where
    pub witnessed : All (IsWitness f.fact) f.witnesses
    pub certain : is_uncertain f.state ≡ false
    pub present_by : (is_present_state f.state && no_witness f.witnesses) ≡ false
    pub dated_too :
        (is_present_state f.state && (is_date_fact f.fact && not (has_date f.date))) ≡ false
    pub absent_in_all : (is_absent_state f.state && absence_is_open request f.fact) ≡ false

  abbrev pub finding_of : FindingInput → List Witness → GroundedFinding
  finding_of item ws = record {
    fact = item.fact;
    state = item.state;
    evidence = item.evidence;
    witnesses = ws;
    date = if needs_date item then common_date ws else none;
  }

  finding_of-IsGrounded :
      (item : FindingInput) (ws : List Witness)
      → All (IsWitness item.fact) ws
      → finding_is_open request item ws ≡ false
      → IsGrounded (finding_of item ws)
  unfolding finding_is_open
  finding_of-IsGrounded item ws h closed = record {
    witnessed = h;
    certain = ground arith;
    present_by = ground arith;
    dated_too = ground arith;
    absent_in_all = ground arith;
  }

  with_witnesses-IsGrounded :
      (item : FindingInput) (rest : Graded (List Witness)) (f : GroundedFinding)
      → ((ws : List Witness) (o : Bool) → rest ≡ graded ws o → All (IsWitness item.fact) ws)
      → with_witnesses request item rest ≡ graded f false
      → IsGrounded f
  with_witnesses-IsGrounded item invalid_answer f h e = absurd (invalid-graded e)
  with_witnesses-IsGrounded item (graded ws o) f h e =
      elim (Bool-cases (
        needs_date item
        && (has_date (common_date ws)
            && (has_date item.date && not (same_date item.date (common_date ws)))))) [
              | inl y ↦ absurd (invalid-graded (rw y at e))
              | inr n ↦
                  let closed : (o || finding_is_open request item ws) ≡ false =
                    graded_open (rw n at e) in
                  subst IsGrounded (graded_value (rw n at e))
                    (finding_of-IsGrounded item ws (h ws o refl) (ground arith))
            ]

  check_finding-IsGrounded :
      (seen : List Fact) (item : FindingInput) (f : GroundedFinding)
      → check_finding contains request seen item ≡ graded f false
      → IsGrounded f
  unfolding check_finding
  check_finding-IsGrounded seen item f e =
      elim (Bool-cases (
        not item.is_well_formed
        || (not (any (λ f. fact_number f == fact_number item.fact) (required_facts request.check))
            || any (λ f. fact_number f == fact_number item.fact) seen))) [
              | inl y ↦ absurd (invalid-graded (rw y at e))
              | inr n ↦ elim (Bool-cases (not item.date_is_well_formed)) [
                | inl y ↦ absurd (invalid-graded (rw (n, y) at e))
                | inr dated ↦
                    with_witnesses-IsGrounded item
                      (check_evidence contains request item.fact item.evidence) f
                      (check_evidence-IsWitness item.fact item.evidence) (rw (n, dated) at e)
              ]
            ]

  with_finding-IsGrounded :
      (here : Graded GroundedFinding) (later : Graded (List GroundedFinding))
      (fs : List GroundedFinding)
      → ((f : GroundedFinding) → here ≡ graded f false → IsGrounded f)
      → ((gs : List GroundedFinding) → later ≡ graded gs false → All IsGrounded gs)
      → with_finding here later ≡ graded fs false
      → All IsGrounded fs
  with_finding-IsGrounded invalid_answer later fs h k e = absurd (invalid-graded e)
  with_finding-IsGrounded (graded f o) invalid_answer fs h k e = absurd (invalid-graded e)
  with_finding-IsGrounded (graded f o) (graded gs p) fs h k e =
      let closed : (o || p) ≡ false = graded_open e in
      subst (All IsGrounded) (graded_value e)
        (h f (ap (graded f) (ground arith)), k gs (ap (graded gs) (ground arith)))

  pub check_findings-IsGrounded :
      (seen : List Fact) (items : List FindingInput) (fs : List GroundedFinding)
      → check_findings contains request seen items ≡ graded fs false
      → All IsGrounded fs
  unfolding check_findings
  check_findings-IsGrounded seen [] fs e = subst (All IsGrounded) (graded_value e) tt
  check_findings-IsGrounded seen (item ∷ items) fs e =
      with_finding-IsGrounded (check_finding contains request seen item)
        (check_findings contains request (item.fact ∷ seen) items) fs
        (check_finding-IsGrounded seen item) (check_findings-IsGrounded (item.fact ∷ seen) items) e
