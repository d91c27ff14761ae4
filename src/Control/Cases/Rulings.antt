-- ===== src/Control/Cases/Rulings.antt =====
-- What a decision needs, and what it means for later results.
use amocrm_analytics.Base.{ℕ, ◌≡◌, ◌≢◌, false, none, some, arith, ◌⊎◌, ◌↔◌}
use amocrm_analytics.Control.Types.{review, review_case, disputed, exempted}
use amocrm_analytics.Control.Cases.{Case, CaseResult, next_control_case_state, lasts_after}

-- A case is sent to review exactly when the result is REVIEW and no dispute, no confirmation and no
-- exemption that still lasts stands against it.
pub next_control_case_state-review_iff :
    (p : Case) (result : CaseResult) (observed_at : ℕ)
    → (next_control_case_state (some p) result observed_at ≡ some review_case) ↔ (
        (result.status ≡ review)
        × (p.status ≢ disputed)
        × (p.confirmed_at ≡ none)
        × ((p.status ≢ exempted) ⊎ (lasts_after p.exemption_until observed_at ≡ false)))
unfolding next_control_case_state
next_control_case_state-review_iff p result observed_at =
    (λ h. (ground arith, ground arith, ground arith, ground arith), λ h. ground arith)
