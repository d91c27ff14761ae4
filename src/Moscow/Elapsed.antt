-- ===== src/Moscow/Elapsed.antt =====
-- `moscowBusinessElapsedMs` is the number of working milliseconds between two instants.
use amocrm_analytics.Base.{
  ℕ, zero, suc, ◌+◌, ◌-◌, ◌≤◌, ◌<◌, ◌≡◌, sym, lt_of_ltb, le_of_ltb, true, false, arith, ltb, leb,
  Bool-cases, some, inl, inr, ◌∙◌, ap, if◌then◌else◌,
}
use amocrm_analytics.Moscow.{
  is_moscow_working_time, next_moscow_business_start, work_end, business_elapsed_loop,
  moscow_business_elapsed_ms,
}
use amocrm_analytics.Moscow.Zone.{fixed_since, IsMoscowClock}
use amocrm_analytics.Moscow.Start.{
  next_moscow_business_start-earliest, lt-work_end, working_until-work_end, idle_after-work_end,
}
use amocrm_analytics.Moscow.Count.{count_from, count_from_split, count_from_all, count_from_none}

-- The working milliseconds from `s` up to `e`.
abbrev pub working_ms : (ℕ → ℕ) → ℕ → ℕ → ℕ
working_ms civil s e = count_from (is_moscow_working_time civil) s (e - s)

module _ (civil : ℕ → ℕ) (clock : IsMoscowClock civil) where
  -- Idle time adds nothing.
  pub working_ms_idle :
      (s m e : ℕ)
      → s ≤ m
      → m ≤ e
      → ((u : ℕ) → s ≤ u → u < m → is_moscow_working_time civil u ≡ false)
      → working_ms civil s e ≡ working_ms civil m e
  working_ms_idle s m e h k idle = omega (
    arith,
    count_from_split (is_moscow_working_time civil) s m e h k,
    count_from_none (is_moscow_working_time civil) s (m - s)
        (λ u from before. idle u from (omega arith)),
  )

  -- Working time counts in full.
  pub working_ms_busy :
      (s m e : ℕ)
      → s ≤ m
      → m ≤ e
      → ((u : ℕ) → s ≤ u → u < m → is_moscow_working_time civil u ≡ true)
      → working_ms civil s e ≡ m - s + working_ms civil m e
  working_ms_busy s m e h k busy = omega (
    arith,
    count_from_split (is_moscow_working_time civil) s m e h k,
    count_from_all (is_moscow_working_time civil) s (m - s)
        (λ u from before. busy u from (omega arith)),
  )

  pub working_ms_none : (s e : ℕ) → e ≤ s → working_ms civil s e ≡ 0
  unfolding count_from
  working_ms_none s e h = let empty : e - s ≡ 0 = omega arith in rw empty

  working_ms_idle_all :
      (s e : ℕ)
      → s ≤ e
      → ((u : ℕ) → s ≤ u → u < e → is_moscow_working_time civil u ≡ false)
      → working_ms civil s e ≡ 0
  working_ms_idle_all s e h idle =
      working_ms_idle s e e h (omega arith) idle ∙ working_ms_none e e (omega arith)

  -- A whole round from a start of work: through the day or to the end, and one millisecond on.
  round :
      (s end : ℕ)
      → fixed_since ≤ s
      → is_moscow_working_time civil s ≡ true
      → s < end
      → working_ms civil s end
        ≡ (if ltb (work_end civil s) end then work_end civil s else end)
          - s
          + working_ms civil (work_end civil s + 1) end
  round s end later working before =
      let lt = lt-work_end civil clock s later working in
      let busy = working_until-work_end civil clock s later working in
      let after = idle_after-work_end civil clock s later working in
      let (next, opens, idle) =
        next_moscow_business_start-earliest civil clock (work_end civil s + 1) (omega arith) in
      elim (Bool-cases (ltb (work_end civil s) end)) [
        | inl over ↦
            let past : work_end civil s < end = lt_of_ltb _ _ over in
            rw over (
              omega (
                arith,
                working_ms_busy s (work_end civil s) end (omega arith) (omega arith) busy,
                working_ms_idle (work_end civil s) (work_end civil s + 1) end (omega arith)
                    (omega arith) (λ u from upto. after u from (omega arith)),
              ))
        | inr within ↦
            let inside : end ≤ work_end civil s = le_of_ltb _ _ within in
            rw within (
              omega (
                arith,
                working_ms_busy s end end (omega arith) (omega arith)
                    (λ u from upto. busy u from (omega arith)),
                working_ms_none end end (omega arith),
                working_ms_none (work_end civil s + 1) end (omega arith),
              ))
      ]

  business_elapsed_loop-count :
      (fuel cursor end total : ℕ)
      → fixed_since ≤ cursor
      → end - cursor < fuel
      → business_elapsed_loop civil fuel cursor end total
        ≡ some (total + working_ms civil cursor end)
  unfolding business_elapsed_loop
  business_elapsed_loop-count zero cursor end total later enough = elim enough [ ]
  business_elapsed_loop-count (suc fuel) cursor end total later enough =
      let s = next_moscow_business_start civil cursor in
      let (le, working, idle) = next_moscow_business_start-earliest civil clock cursor later in
      let lt = lt-work_end civil clock s (omega arith) working in
      elim (Bool-cases (leb end cursor)) [
        | inl passed ↦
            rw passed (ap some (omega (arith, working_ms_none cursor end (ground arith))))
        | inr ahead ↦ elim (Bool-cases (leb end s)) [
          | inl short ↦
              rw (ahead, short)
                (ap some (
                  omega (
                    arith,
                    working_ms_idle_all cursor end (ground arith)
                        (λ u from upto. idle u from (ground arith)),
                  )))
          | inr on ↦
              rw (ahead, on)
                (business_elapsed_loop-count fuel (work_end civil s + 1) end _ (omega arith)
                    (ground arith)
                  ∙ ap some (
                      omega (
                        arith,
                        round s end (omega arith) working (ground arith),
                        working_ms_idle cursor s end le (ground arith) idle,
                      )))
        ]
      ]

  -- On the clock of Moscow, since 2014-10-26, and with more fuel than milliseconds between the two instants,
  -- `moscowBusinessElapsedMs` returns the number of working milliseconds from `start` up to `end`;
  -- that is none when `end` is not after `start`.
  pub moscow_business_elapsed_ms-count :
      (fuel start end : ℕ)
      → fixed_since ≤ start
      → end - start < fuel
      → moscow_business_elapsed_ms civil fuel start end
        ≡ some (count_from (is_moscow_working_time civil) start (end - start))
  unfolding moscow_business_elapsed_ms
  moscow_business_elapsed_ms-count fuel start end later enough = elim (Bool-cases (leb end start)) [
    | inl empty ↦ rw empty (ap some (sym (working_ms_none start end (ground arith))))
    | inr ahead ↦
        rw ahead (business_elapsed_loop-count fuel start end 0 later enough ∙ ap some (omega arith))
  ]
