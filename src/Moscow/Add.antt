-- ===== src/Moscow/Add.antt =====
-- `addMoscowBusinessTime` is undone by `moscowBusinessElapsedMs`.
use amocrm_analytics.Base.{
  ℕ, zero, suc, ◌+◌, ◌-◌, ◌≤◌, ◌<◌, ◌≡◌, true, false, arith, leb, ◌==◌, Bool-cases, Option, some,
  inl, inr, ◌∙◌, ap,
}
use amocrm_analytics.Moscow.{
  is_moscow_working_time, next_moscow_business_start, work_end, add_business_loop,
  add_moscow_business_time, moscow_business_elapsed_ms,
}
use amocrm_analytics.Moscow.Zone.{fixed_since, IsMoscowClock}
use amocrm_analytics.Moscow.Start.{
  next_moscow_business_start-earliest, lt-work_end, working_until-work_end, idle_after-work_end,
}
use amocrm_analytics.Moscow.Elapsed.{
  working_ms, working_ms_idle, working_ms_busy, working_ms_none, moscow_business_elapsed_ms-count,
}

module _ (civil : ℕ → ℕ) (clock : IsMoscowClock civil) where
  -- What the loop returns from a working cursor.
  abbrev Lands : ℕ → ℕ → Option ℕ → Type 0
  Lands cursor remaining result =
      (r : ℕ) × (result ≡ some r) × (cursor ≤ r) × (working_ms civil cursor r ≡ remaining)

  add_business_loop-Lands :
      (fuel cursor remaining : ℕ)
      → fixed_since ≤ cursor
      → is_moscow_working_time civil cursor ≡ true
      → remaining < fuel
      → Lands cursor remaining (add_business_loop civil fuel cursor remaining)
  unfolding add_business_loop
  add_business_loop-Lands zero cursor remaining later working enough = elim enough [ ]
  add_business_loop-Lands (suc fuel) cursor remaining later working enough =
      let day_end = work_end civil cursor in
      let lt = lt-work_end civil clock cursor later working in
      let busy = working_until-work_end civil clock cursor later working in
      let after = idle_after-work_end civil clock cursor later working in
      let start = next_moscow_business_start civil (day_end + 1) in
      let (le, opens, idle) =
        next_moscow_business_start-earliest civil clock (day_end + 1) (omega arith) in
      elim (Bool-cases (remaining == 0)) [
        | inl done ↦ (
          cursor,
          rw done,
          omega arith,
          working_ms_none civil clock cursor cursor (omega arith) ∙ ground arith,
        )
        | inr more ↦ elim (Bool-cases (leb remaining (day_end - cursor))) [
          | inl today ↦
              let fits : remaining ≤ day_end - cursor = ground arith in
              (
                cursor + remaining,
                rw (more, today),
                omega arith,
                omega (
                  arith,
                  working_ms_busy civil clock cursor (cursor + remaining) (cursor + remaining)
                      (omega arith) (omega arith) (λ u from upto. busy u from (omega arith)),
                  working_ms_none civil clock (cursor + remaining) (cursor + remaining)
                      (omega arith),
                ),
              )
          | inr over ↦
              let (r, found, reach, worked) =
                add_business_loop-Lands fuel start (remaining - (day_end - cursor)) (omega arith)
                  opens (ground arith) in
              (
                r,
                rw (more, over) found,
                omega arith,
                omega (
                  arith,
                  worked,
                  le_of_over over,
                  working_ms_busy civil clock cursor day_end r (omega arith) (omega arith) busy,
                  working_ms_idle civil clock day_end start r (omega arith) reach after,
                ),
              )
        ]
      ]
    where
      le_of_over :
          leb remaining (work_end civil cursor - cursor) ≡ false
          → work_end civil cursor - cursor ≤ remaining
      le_of_over h = ground arith

  -- On the clock of Moscow, since 2014-10-26, and with more fuel than milliseconds to add, `addMoscowBusinessTime`
  -- returns an instant not before `start`, and `moscowBusinessElapsedMs` from `start` to that instant
  -- gives the milliseconds back, whatever fuel above the distance it has.
  pub elapsed-add_moscow_business_time :
      (fuel start milliseconds : ℕ)
      → fixed_since ≤ start
      → milliseconds < fuel
      → (r : ℕ) × (add_moscow_business_time civil fuel start milliseconds ≡ some r)
        × (start ≤ r)
        × ((fuel' : ℕ)
            → r - start < fuel'
            → moscow_business_elapsed_ms civil fuel' start r ≡ some milliseconds)
  unfolding add_moscow_business_time
  elapsed-add_moscow_business_time fuel start milliseconds later enough =
      let cursor = next_moscow_business_start civil start in
      let (le, working, idle) = next_moscow_business_start-earliest civil clock start later in
      let (r, found, reach, worked) =
        add_business_loop-Lands fuel cursor milliseconds (omega arith) working enough in
      (
        r,
        found,
        omega arith,
        λ fuel' enough'.
            moscow_business_elapsed_ms-count civil clock fuel' start r later enough'
            ∙ ap some (working_ms_idle civil clock start cursor r le reach idle ∙ worked),
      )
