-- ===== src/Control/Deadline/Sound.antt =====
-- What a deadline of a stage means on the local clock.
use amocrm_analytics.Base.{
  ℕ, ◌+◌, ◌-◌, ◌*◌, ◌/◌, ◌≤◌, ◌<◌, ◌≡◌, ◌≢◌, refl, ==_iff, true, arith, Option, none, some, ◌==◌,
  Bool-cases, inl, inr, ap, List, [], ◌∷◌, All, any, not, ◌&&◌, ◌↔◌,
}
use amocrm_analytics.Moscow.Count.{count_from}
use amocrm_analytics.Control.Types.{
  DeadlineMode, elapsed, business_days, end_of_day, unlimited, other, StageRule,
}
use amocrm_analytics.Control.Deadline.{
  day, hour, is_weekday, skip_business_days, candidate, collect, instant_at_civil_time,
  civil_target, deadline_from, stage_deadline, has_stage_deadline, rule_mode, only, at_civil,
  mode_or_elapsed, configured_deadline,
}
use amocrm_analytics.Control.Deadline.Workdays.{skip_business_days_total}

only-All : (P : ℕ → Type 0) (l : List ℕ) (t : ℕ) → All P l → only l ≡ some t → P t
only-All P [] t h e = cc
only-All P (x ∷ []) t (here, rest) e = let same : x ≡ t = ground arith in rw (← same) here
only-All P (x ∷ y ∷ l) t h e = cc

present : (o : Option ℕ) → o ≢ none → (n : ℕ) × (o ≡ some n)
present none h = absurd (h refl)
present (some n) h = (n, refl)

module _ (civil : ℕ → ℕ) where
  -- Every instant that is collected has the wanted local time.
  collect-civil :
      (target : ℕ) (hs found : List ℕ)
      → All (λ t. civil t ≡ target) found
      → All (λ t. civil t ≡ target) (collect civil target hs found)
  unfolding collect
  collect-civil target [] found h = h
  collect-civil target (x ∷ hs) found h =
      collect-civil target hs _
        (elim (Bool-cases (
          civil (candidate civil target x) == target
          && not (any (λ t. t == candidate civil target x) found))) [
            | inl new ↦ rw new (ground arith, h)
            | inr old ↦ rw old h
          ])

  pub instant_at_civil_time-civil :
      (target t : ℕ) → instant_at_civil_time civil target ≡ some t → civil t ≡ target
  unfolding instant_at_civil_time
  instant_at_civil_time-civil target t e =
      only-All (λ x. civil x ≡ target) _ t (collect-civil target _ [] tt) e

  -- The meaning of a deadline `d` after the entry, by the mode of the rule.
  abbrev pub Meets : DeadlineMode → StageRule → (entry d : ℕ) → Type 0
  Meets elapsed rule entry d = (h : ℕ) × (rule.max_duration_hours ≡ some h) × (d ≡ entry + h * hour)
  Meets end_of_day rule entry d = civil d ≡ civil entry / day * day + 19 * hour
  Meets business_days rule entry d =
      (n : ℕ) × (k : ℕ) × (rule.max_business_days ≡ some n)
      × (civil d ≡ civil entry + k * day)
      × (count_from is_weekday (civil entry / day + 1) k ≡ n)
      × (is_weekday (civil entry / day + k) ≡ true)
  Meets _ rule entry d = ⊥

  at_civil-civil :
      (mode : DeadlineMode) (target d : ℕ)
      → (at_civil civil mode (some target)).deadline ≡ some d
      → civil d ≡ target
  at_civil-civil mode target d e = instant_at_civil_time-civil target d (ground arith)

  civil_target-business_days :
      (rule : StageRule) (n entry target : ℕ)
      → rule.max_business_days ≡ some n
      → skip_business_days (3 * n) (civil entry) n ≡ some target
      → civil_target civil business_days rule entry ≡ some target
  unfolding civil_target
  civil_target-business_days rule n entry target configured found = rw configured found

  business_days-Meets :
      (rule : StageRule) (n entry d : ℕ)
      → rule.max_business_days ≡ some n
      → 0 < n
      → (deadline_from civil business_days rule entry).deadline ≡ some d
      → Meets business_days rule entry d
  unfolding deadline_from
  business_days-Meets rule n entry d configured some_days e =
      let (k, found, counted, last) = skip_business_days_total (civil entry) n in
      let target = civil_target-business_days rule n entry _ configured found in
      (
        n,
        k,
        configured,
        at_civil-civil business_days (civil entry + k * day) d (rw target at e),
        counted,
        ground arith,
      )

  end_of_day-Meets :
      (rule : StageRule) (entry d : ℕ)
      → (deadline_from civil end_of_day rule entry).deadline ≡ some d
      → Meets end_of_day rule entry d
  unfolding deadline_from civil_target
  end_of_day-Meets rule entry d e = at_civil-civil end_of_day _ d e

  elapsed-Meets :
      (rule : StageRule) (h entry d : ℕ)
      → rule.max_duration_hours ≡ some h
      → (deadline_from civil elapsed rule entry).deadline ≡ some d
      → Meets elapsed rule entry d
  unfolding deadline_from
  elapsed-Meets rule h entry d configured e = (h, configured, ground arith)

  -- What a valid configuration says of the limit that its mode reads.
  abbrev HasLimit : DeadlineMode → StageRule → Type 0
  HasLimit elapsed rule = (h : ℕ) × (rule.max_duration_hours ≡ some h)
  HasLimit business_days rule = (n : ℕ) × (rule.max_business_days ≡ some n) × (0 < n)
  HasLimit end_of_day rule = Unit
  HasLimit unlimited rule = Unit
  HasLimit other rule = ⊥

  has_limit :
      (rule : StageRule) (m : Option DeadlineMode)
      → rule.deadline_mode ≡ m
      → has_stage_deadline (some rule) ≡ true
      → HasLimit (mode_or_elapsed m) rule
  unfolding has_stage_deadline
  has_limit rule none m h = present rule.max_duration_hours (λ e. ground arith)
  has_limit rule (some elapsed) m h = present rule.max_duration_hours (λ e. ground arith)
  has_limit rule (some business_days) m h =
      let (n, configured) = present rule.max_business_days (λ e. ground arith) in
      (n, configured, ground arith)
  has_limit rule (some end_of_day) m h = tt
  has_limit rule (some unlimited) m h = tt
  has_limit rule (some other) m h = ground arith

  from_mode-Meets :
      (rule : StageRule) (entry d : ℕ) (m : DeadlineMode)
      → HasLimit m rule
      → (deadline_from civil m rule entry).deadline ≡ some d
      → Meets m rule entry d
  from_mode-Meets rule entry d elapsed (h, configured) e = elapsed-Meets rule h entry d configured e
  from_mode-Meets rule entry d business_days (n, configured, some_days) e =
      business_days-Meets rule n entry d configured some_days e
  from_mode-Meets rule entry d end_of_day limit e = end_of_day-Meets rule entry d e
  from_mode-Meets rule entry d unlimited limit e = unfold deadline_from in cc
  from_mode-Meets rule entry d other limit e = absurd limit

  configured_deadline-from :
      (m : DeadlineMode) (rule : StageRule) (entry : ℕ)
      → configured_deadline civil m rule (some entry) ≡ deadline_from civil m rule entry
  unfolding deadline_from
  configured_deadline-from unlimited rule entry = refl
  configured_deadline-from _ rule entry = refl

  -- The deadline of a stage, when there is one, is by the mode of its rule: the entry plus the hours;
  -- 19:00 of the local day of the entry; or the local time of the entry a number of days later, such
  -- that exactly the configured number of those days are not Saturday or Sunday, and the last is not.
  pub stage_deadline-Meets :
      (rule : StageRule) (entry d : ℕ)
      → (stage_deadline civil (some rule) (some entry)).deadline ≡ some d
      → Meets (rule_mode (some rule)) rule entry d
  unfolding stage_deadline
  stage_deadline-Meets rule entry d e = elim (Bool-cases (has_stage_deadline (some rule))) [
    | inl valid ↦
        from_mode-Meets rule entry d (mode_or_elapsed rule.deadline_mode)
          (has_limit rule rule.deadline_mode refl valid)
          (rw configured_deadline-from at (rw valid at e))
    | inr invalid ↦ ground arith
  ]

  no_reason-unlimited :
      (m : DeadlineMode) (rule : StageRule) (entry : Option ℕ)
      → (configured_deadline civil m rule entry).deadline ≡ none
      → (configured_deadline civil m rule entry).reason ≡ none
      → m ≡ unlimited
  unfolding deadline_from
  no_reason-unlimited unlimited rule entry d r = refl
  no_reason-unlimited _ rule none d r = cc
  no_reason-unlimited _ rule (some entry) d r = ground arith

  unlimited_mode : (m : Option DeadlineMode) → mode_or_elapsed m ≡ unlimited → m ≡ some unlimited
  unlimited_mode none e = cc
  unlimited_mode (some m) e = ap some e

  -- A stage has neither a deadline nor a reason for its absence exactly when its rule is valid and
  -- sets the mode without a limit.
  pub stage_deadline-unlimited_iff :
      (rule : StageRule) (entry : Option ℕ)
      → (((stage_deadline civil (some rule) entry).deadline ≡ none)
          × ((stage_deadline civil (some rule) entry).reason ≡ none))
        ↔ ((has_stage_deadline (some rule) ≡ true) × (rule.deadline_mode ≡ some unlimited))
  unfolding stage_deadline deadline_from
  stage_deadline-unlimited_iff rule entry = (
    λ (d, r). elim (Bool-cases (has_stage_deadline (some rule))) [
      | inl valid ↦ (
        valid,
        unlimited_mode rule.deadline_mode
            (no_reason-unlimited _ rule entry (rw valid at d) (rw valid at r)),
      )
      | inr invalid ↦ absurd (ground arith)
    ],
    λ (valid, mode). rw (valid, mode) (refl, refl),
  )

-- In a zone with a constant offset the local time of a deadline is always found.
module _ (civil : ℕ → ℕ) (offset : ℕ) (fixed : (t : ℕ) → civil t ≡ t + offset) where
  candidate-fixed : (target h : ℕ) → candidate civil target h ≡ target - offset
  unfolding candidate
  candidate-fixed target h = rw fixed (omega arith)

  collect-fixed :
      (target : ℕ) (hs : List ℕ)
      → collect civil target hs ((target - offset) ∷ []) ≡ (target - offset) ∷ []
  unfolding collect
  collect-fixed target [] = refl
  collect-fixed target (h ∷ hs) = rw (candidate-fixed target h) (
      let known : (target - offset == target - offset) ≡ true = ground arith in
      ground (arith, collect-fixed target hs))

  collect-first :
      (target x : ℕ) (hs : List ℕ)
      → offset ≤ target
      → collect civil target (x ∷ hs) [] ≡ (target - offset) ∷ []
  unfolding collect
  collect-first target x hs h =
      let back : (civil (target - offset) == target) ≡ true =
        rw fixed ((==_iff _ target).1 (omega arith)) in
      rw (candidate-fixed target x) (rw back (collect-fixed target hs))

  -- On a clock that is `offset` ahead of UTC, the instant of every local time from 1970 on is found.
  pub instant_at_civil_time-fixed :
      (target : ℕ) → offset ≤ target → instant_at_civil_time civil target ≡ some (target - offset)
  unfolding instant_at_civil_time
  instant_at_civil_time-fixed target h = ap only (collect-first target 0 _ h)
