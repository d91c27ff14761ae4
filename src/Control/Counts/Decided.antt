-- ===== src/Control/Counts/Decided.antt =====
-- A run is complete exactly when every deal has results and none of them is open.
use amocrm_analytics.Base.{ℕ, ◌+◌, ◌≤◌, ◌≡◌, ◌≢◌, ◌↔◌, ◌⊎◌, refl, true, List, [], ◌∷◌, arith, All}
use amocrm_analytics.Control.Types.{
  ResultStatus, review, unknown, Counts, RunStatus, queued, completed, partial,
}
use amocrm_analytics.Control.Counts.{
  empty_control_counts, count, observation_counts, add_control_counts, control_completion,
}

-- The counts of a run, summed over the results of its deals.
abbrev pub run_counts : List (List ResultStatus) → Counts
run_counts [] = empty_control_counts
run_counts (results ∷ rest) = add_control_counts (run_counts rest) (observation_counts results)

-- A status that leaves nothing to decide.
abbrev pub IsSettled : ResultStatus → Type 0
IsSettled review = ⊥
IsSettled unknown = ⊥
IsSettled _ = Unit

-- A deal has results, and each of them is settled.
abbrev pub IsDecided : List ResultStatus → Type 0
IsDecided [] = ⊥
IsDecided (r ∷ rs) = All IsSettled (r ∷ rs)

abbrev pub IsFinished : RunStatus → Type 0
IsFinished status = (status ≡ completed) ⊎ (status ≡ partial)

-- What holds of the sums.
record IsConsistent (c : Counts) : Type 0 where
  checked_le : c.checked_deals ≤ c.deals
  failed_le : c.failed_deals ≤ c.violations
  review_le : c.review_deals ≤ c.review
  unknown_le : c.unknown_deals ≤ c.unknown
  open_le : c.checked_deals + c.review_deals ≤ c.deals
  unresolved : c.unresolved_deals ≡ c.failed_deals

run_counts-IsConsistent : (rs : List (List ResultStatus)) → IsConsistent (run_counts rs)
unfolding add_control_counts observation_counts
run_counts-IsConsistent [] = omega arith
run_counts-IsConsistent (r ∷ rs) = ground (arith, run_counts-IsConsistent rs)

All-IsSettled_iff :
    (results : List ResultStatus)
    → ((count unknown results ≡ 0) × (count review results ≡ 0)) ↔ All IsSettled results
unfolding count
All-IsSettled_iff [] = (λ h. tt, λ h. (refl, refl))
All-IsSettled_iff (review ∷ rs) = (λ h. absurd (omega arith), λ h. absurd h.0)
All-IsSettled_iff (unknown ∷ rs) = (λ h. absurd (omega arith), λ h. absurd h.0)
All-IsSettled_iff (_ ∷ rs) =
    let (to, from) = All-IsSettled_iff rs in
    (
      λ h. (tt, to (omega arith, omega arith)),
      λ h. let (u, r) = from h.1 in (omega arith, omega arith),
    )

-- One deal is counted as checked exactly when it is decided.
checked_deal_iff :
    (results : List ResultStatus)
    → ((observation_counts results).checked_deals ≡ 1) ↔ IsDecided results
unfolding observation_counts
checked_deal_iff [] = (λ h. absurd (unfold count in omega arith), λ h. absurd h)
checked_deal_iff (r ∷ rs) =
    let (to, from) = All-IsSettled_iff (r ∷ rs) in
    (λ h. to (ground arith, ground arith), λ h. let (u, v) = from h in ground arith)

settled_deal :
    (results : List ResultStatus)
    → IsDecided results
    → ((observation_counts results).unknown ≡ 0) × ((observation_counts results).review ≡ 0)
unfolding observation_counts
settled_deal [] h = absurd h
settled_deal (r ∷ rs) h = (All-IsSettled_iff (r ∷ rs)).1 h

one_deal :
    (results : List ResultStatus)
    → ((observation_counts results).deals ≡ 1) × ((observation_counts results).checked_deals ≤ 1)
unfolding observation_counts
one_deal results = ground arith

run-IsDecided_iff :
    (rs : List (List ResultStatus))
    → (((run_counts rs).unknown ≡ 0)
        × ((run_counts rs).review ≡ 0)
        × ((run_counts rs).deals ≤ (run_counts rs).checked_deals))
      ↔ All IsDecided rs
unfolding add_control_counts
run-IsDecided_iff [] = (λ h. tt, λ h. (refl, refl, omega arith))
run-IsDecided_iff (r ∷ rs) =
    let (to, from) = run-IsDecided_iff rs in
    let (to_one, from_one) = checked_deal_iff r in
    let sums = run_counts-IsConsistent rs in
    let one = one_deal r in
    (
      λ h. (to_one (omega arith), to (omega arith, omega arith, omega arith)),
      λ h.
          let (u, v, w) = from h.1 in
          let (a, b) = settled_deal r h.0 in
          let c = from_one h.0 in (omega arith, omega arith, omega arith),
    )

some_deals : (rs : List (List ResultStatus)) → ((run_counts rs).deals ≡ 0) ↔ (rs ≡ [])
unfolding add_control_counts
some_deals [] = (λ h. refl, λ h. refl)
some_deals (r ∷ rs) = let one = one_deal r in (λ h. absurd (omega arith), λ h. cc)

-- The reasons are empty exactly when each test fails.
checked_iff :
    (status : RunStatus) (c : Counts) (issues : ℕ)
    → ((control_completion status c issues).checked ≡ true) ↔ (
        IsFinished status
        × (c.deals ≢ 0)
        × ((c.unknown ≡ 0) × (c.review ≡ 0) × (c.deals ≤ c.checked_deals))
        × (issues ≡ 0))
unfolding control_completion
checked_iff queued c issues = (λ h. ground arith, λ h. ground arith)
checked_iff _ c issues = (
  λ h. (ground arith, ground arith, (ground arith, ground arith, ground arith), ground arith),
  λ h. ground arith,
)

-- A run is CHECKED exactly when it has finished, has deals, each deal has results of which none is
-- REVIEW or UNKNOWN, and no remark is left.
pub control_completion-checked_iff :
    (status : RunStatus) (rs : List (List ResultStatus)) (issues : ℕ)
    → ((control_completion status (run_counts rs) issues).checked ≡ true)
      ↔ (IsFinished status × (rs ≢ []) × All IsDecided rs × (issues ≡ 0))
control_completion-checked_iff status rs issues =
    let (to, from) = checked_iff status (run_counts rs) issues in
    let (deals, none) = some_deals rs in
    let (decided, settled) = run-IsDecided_iff rs in
    (
      λ h.
          let (finished, some_deal, all_done, remarks) = to h in
          (finished, λ e. some_deal (none e), decided all_done, remarks),
      λ (finished, some_deal, all_done, remarks).
          from (finished, λ e. some_deal (deals e), settled all_done, remarks),
    )
