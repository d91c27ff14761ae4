-- ===== src/Moscow/Weekdays.antt =====
-- `moscowWeekdayElapsedMs` is the number of milliseconds on days from Monday to Friday.
use amocrm_analytics.Base.{
  ℕ, zero, suc, ◌+◌, ◌-◌, ◌≤◌, ◌<◌, ◌≡◌, refl, Bool, arith, ltb, leb, Bool-cases, some, inl, inr,
  ◌∙◌, ap, if◌then◌else◌, sym,
}
use amocrm_analytics.Moscow.{
  is_moscow_business_day, moscow_parts, weekday_elapsed_loop, moscow_weekday_elapsed_ms,
}
use amocrm_analytics.Moscow.Zone.{
  fixed_since, IsMoscowClock, local_day, workday, instant, moscow_date-moscow_parts,
  business_day-moscow_parts,
}
use amocrm_analytics.Moscow.Count.{count_from, count_from_split, count_from_all, count_from_none}

-- Whether an instant lies on a day from Monday to Friday.
abbrev pub on_weekday : (ℕ → ℕ) → ℕ → Bool
on_weekday civil t = is_moscow_business_day (moscow_parts civil t).day_of_week

module _ (civil : ℕ → ℕ) (clock : IsMoscowClock civil) where
  -- Within one day the test gives one answer.
  same_day :
      (t u : ℕ)
      → fixed_since ≤ t
      → t ≤ u
      → u < instant (local_day t + 1) 0
      → on_weekday civil u ≡ on_weekday civil t
  same_day t u later from upto =
      let day : local_day u ≡ local_day t = omega arith in
      business_day-moscow_parts civil clock u (omega arith)
      ∙ ap workday day
      ∙ sym (business_day-moscow_parts civil clock t later)

  chunk_lem :
      (s e : ℕ)
      → fixed_since ≤ s
      → s ≤ e
      → e ≤ instant (local_day s + 1) 0
      → count_from (on_weekday civil) s (e - s) ≡ (if on_weekday civil s then e - s else 0)
  chunk_lem s e later le inside = elim (Bool-cases (on_weekday civil s)) [
    | inl here ↦ rw here (
        count_from_all (on_weekday civil) s (e - s)
          (λ u from upto. same_day s u later from (omega arith) ∙ here))
    | inr off ↦ rw off (
        count_from_none (on_weekday civil) s (e - s)
          (λ u from upto. same_day s u later from (omega arith) ∙ off))
  ]

  -- Where a round ends: at midnight, or at the end.
  abbrev chunk_end : ℕ → ℕ → ℕ
  chunk_end cursor end =
      if ltb (instant (local_day cursor + 1) 0) end then instant (local_day cursor + 1) 0 else end

  chunk_end_bounds :
      (cursor end : ℕ)
      → cursor < end
      → (cursor < chunk_end cursor end)
        × (chunk_end cursor end ≤ end)
        × (chunk_end cursor end ≤ instant (local_day cursor + 1) 0)
  chunk_end_bounds cursor end h = ground arith

  weekday_elapsed_loop-count :
      (fuel cursor end total : ℕ)
      → fixed_since ≤ cursor
      → end - cursor < fuel
      → weekday_elapsed_loop civil fuel cursor end total
        ≡ some (total + count_from (on_weekday civil) cursor (end - cursor))
  unfolding weekday_elapsed_loop
  weekday_elapsed_loop-count zero cursor end total later enough = elim enough [ ]
  weekday_elapsed_loop-count (suc fuel) cursor end total later enough =
      elim (Bool-cases (leb end cursor)) [
        | inl passed ↦
            let empty : end - cursor ≡ 0 = ground arith in
            rw (passed, empty) (unfold count_from in ap some (omega arith))
        | inr ahead ↦ rw ahead (
            rw (moscow_date-moscow_parts civil clock cursor 1 0 later) (
              weekday_elapsed_loop-count fuel (chunk_end cursor end) end _
                (omega (arith, chunk_end_bounds cursor end (ground arith)))
                (omega (arith, chunk_end_bounds cursor end (ground arith)))
              ∙ ap some (
                  ground (
                    arith,
                    chunk_end_bounds cursor end (ground arith),
                    count_from_split (on_weekday civil) cursor (chunk_end cursor end) end,
                    chunk_lem cursor (chunk_end cursor end) later,
                  ))))
      ]

  -- On the clock of Moscow and with more fuel than milliseconds between the two instants,
  -- `moscowWeekdayElapsedMs` returns the number of milliseconds from `start` up to `end` that lie on
  -- a day from Monday to Friday; that is none when `end` is not after `start`.
  pub moscow_weekday_elapsed_ms-count :
      (fuel start end : ℕ)
      → fixed_since ≤ start
      → end - start < fuel
      → moscow_weekday_elapsed_ms civil fuel start end
        ≡ some (count_from (on_weekday civil) start (end - start))
  unfolding moscow_weekday_elapsed_ms
  moscow_weekday_elapsed_ms-count fuel start end later enough = elim (Bool-cases (leb end start)) [
    | inl empty ↦
        let nothing : end - start ≡ 0 = ground arith in
        rw (empty, nothing) (unfold count_from in refl)
    | inr ahead ↦
        rw ahead (weekday_elapsed_loop-count fuel start end 0 later enough ∙ ap some (omega arith))
  ]
