-- ===== src/Control/Deadline/Workdays.antt =====
-- The loop over the business days ends, and passes exactly the days asked for.
use amocrm_analytics.Base.{
  ℕ, zero, suc, ◌+◌, ◌-◌, ◌*◌, ◌/◌, ◌≤◌, ◌<◌, ◌≡◌, refl, true, false, arith, Option, some, ◌==◌,
  inl, inr, ◌⊎◌, if◌then◌else◌, ap, ◌∙◌,
}
use amocrm_analytics.Calendar.{week_day}
use amocrm_analytics.Moscow.Count.{count_from}
use amocrm_analytics.Control.Deadline.{day, is_weekday, skip_business_days}

-- The weekend days that follow a day at once.
weekend_ahead : ℕ → ℕ
weekend_ahead n = if week_day n == 5 then 2 else if week_day n == 6 then 1 else 0

weekend_round : (n : ℕ) → is_weekday (n + 1) ≡ false → weekend_ahead n ≡ weekend_ahead (n + 1) + 1
unfolding week_day is_weekday weekend_ahead
weekend_round n h = ground arith

weekday_round : (n : ℕ) → weekend_ahead n ≤ 2
unfolding weekend_ahead
weekday_round n = ground arith

next_day : (target : ℕ) → (target + day) / day ≡ target / day + 1
next_day target = omega arith

-- The result is a whole number of days on, and the days passed hold the business days asked for.
abbrev pub Passes : ℕ → ℕ → Option ℕ → Type 0
Passes target remaining result =
    (k : ℕ) × (result ≡ some (target + k * day))
    × (count_from is_weekday (target / day + 1) k ≡ remaining)
    × (((remaining ≡ 0) × (k ≡ 0)) ⊎ (is_weekday (target / day + k) ≡ true))

last_day :
    (n k left remaining : ℕ)
    → left ≡ (if is_weekday (n + 1) then remaining - 1 else remaining)
    → 0 < remaining
    → ((left ≡ 0) × (k ≡ 0)) ⊎ (is_weekday (n + 1 + k) ≡ true)
    → is_weekday (n + suc k) ≡ true
last_day n k left remaining e h (inr counted) =
    let same : n + suc k ≡ n + 1 + k = omega arith in rw same counted
last_day n k left remaining e h (inl (z, none)) =
    let same : n + suc k ≡ n + 1 = omega arith in rw same (ground arith)

-- One round: a day is passed, and counted if it is a business day.
Passes-round :
    (target remaining : ℕ) (result : Option ℕ)
    → Passes
        (target + day)
        (if is_weekday ((target + day) / day) then remaining - 1 else remaining)
        result
    → 0 < remaining
    → Passes target remaining result
unfolding count_from
Passes-round target remaining result (k, found, counted, last) h =
    let days : (target + day) / day ≡ target / day + 1 = next_day target in
    (
      suc k,
      found ∙ ap some (omega arith),
      (let counted' = rw days at counted in ground arith),
      inr (last_day (target / day) k _ remaining refl h (rw days at last)),
    )

enough :
    (fuel n remaining : ℕ)
    → 3 * suc remaining + weekend_ahead n ≤ suc fuel + 2
    → 3 * (if is_weekday (n + 1) then suc remaining - 1 else suc remaining) + weekend_ahead (n + 1)
      ≤ fuel + 2
enough fuel n remaining h = ground (arith, weekend_round n, weekday_round n, weekday_round (n + 1))

skip_business_days-Passes :
    (fuel target remaining : ℕ)
    → 3 * remaining + weekend_ahead (target / day) ≤ fuel + 2
    → Passes target remaining (skip_business_days fuel target remaining)
unfolding skip_business_days count_from
skip_business_days-Passes zero target zero h = (0, ap some (omega arith), refl, inl (refl, refl))
skip_business_days-Passes (suc fuel) target zero h =
    (0, ap some (omega arith), refl, inl (refl, refl))
skip_business_days-Passes zero target (suc remaining) h = absurd (omega arith)
skip_business_days-Passes (suc fuel) target (suc remaining) h =
    let days : (target + day) / day ≡ target / day + 1 = next_day target in
    let more : (suc remaining == 0) ≡ false = ground arith in
    rw more (
      Passes-round target (suc remaining) _
        (skip_business_days-Passes fuel (target + day)
          (if is_weekday ((target + day) / day) then suc remaining - 1 else suc remaining)
          (rw days (enough fuel (target / day) remaining h)))
        (omega arith))

-- With three rounds for each business day the loop ends: it is a whole number of days on, of which
-- exactly `remaining` are business days, and the last one passed is a business day.
pub skip_business_days_total :
    (target remaining : ℕ)
    → Passes target remaining (skip_business_days (3 * remaining) target remaining)
skip_business_days_total target remaining =
    skip_business_days-Passes (3 * remaining) target remaining
      (omega (arith, weekday_round (target / day)))
