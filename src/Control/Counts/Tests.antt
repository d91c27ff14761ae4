-- ===== src/Control/Counts/Tests.antt =====
-- A finished run of two deals.
use amocrm_analytics.Base.{◌≡◌, refl, true, false, List, [], ◌∷◌}
use amocrm_analytics.Control.Types.{ResultStatus, pass, fail, na, review, completed}
use amocrm_analytics.Control.Counts.{
  control_completion, observation_counts, add_control_counts, count,
}
use amocrm_analytics.Control.Counts.Decided.{run_counts}

abbrev two_deals : List (List ResultStatus)
two_deals = (pass ∷ fail ∷ []) ∷ (na ∷ []) ∷ []

completion_test :
    ((control_completion completed (run_counts two_deals) 0).checked ≡ true)
    × ((control_completion completed (run_counts ((review ∷ []) ∷ two_deals)) 0).checked ≡ false)
    × ((control_completion completed (run_counts ([] ∷ two_deals)) 0).remaining_deals ≡ 1)
unfolding control_completion observation_counts add_control_counts count
completion_test = (refl, refl, refl)
