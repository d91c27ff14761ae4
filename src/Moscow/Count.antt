-- ===== src/Moscow/Count.antt =====
-- The independent description of an elapsed time: how many instants of an interval pass a test.
use amocrm_analytics.Base.{
  ℕ, zero, suc, ◌+◌, ◌-◌, ◌≤◌, ◌<◌, ◌≡◌, refl, Bool, true, false, arith, if◌then◌else◌,
}

-- The instants from `s` on, `n` of them, that pass the test.
unfoldable pub count_from : (ℕ → Bool) → ℕ → ℕ → ℕ
count_from p s zero = 0
count_from p s (suc n) = (if p s then 1 else 0) + count_from p (s + 1) n

module _ (p : ℕ → Bool) where
  pub count_from-add :
      (s m n : ℕ) → count_from p s (m + n) ≡ count_from p s m + count_from p (s + m) n
  unfolding count_from
  count_from-add s zero n =
      let none_left : 0 + n ≡ n = omega arith in
      let same_start : s + 0 ≡ s = omega arith in rw (none_left, same_start) (omega arith)
  count_from-add s (suc m) n =
      let one_more : suc m + n ≡ suc (m + n) = omega arith in
      let same_start : s + suc m ≡ s + 1 + m = omega arith in
      rw (one_more, same_start) (omega (arith, count_from-add (s + 1) m n))

  -- The same for a start, a middle and an end.
  pub count_from_split :
      (s m e : ℕ)
      → s ≤ m
      → m ≤ e
      → count_from p s (e - s) ≡ count_from p s (m - s) + count_from p m (e - m)
  count_from_split s m e h k =
      let parts : e - s ≡ m - s + (e - m) = omega arith in
      let middle : s + (m - s) ≡ m = omega arith in
      rw parts (rw (count_from-add s (m - s) (e - m)) (rw middle))

  pub count_from_all : (s n : ℕ) → ((u : ℕ) → s ≤ u → u < s + n → p u ≡ true) → count_from p s n ≡ n
  unfolding count_from
  count_from_all s zero h = refl
  count_from_all s (suc n) h =
      ground
        (arith, h s, count_from_all (s + 1) n (λ u from before. h u (omega arith) (omega arith)))

  pub count_from_none :
      (s n : ℕ) → ((u : ℕ) → s ≤ u → u < s + n → p u ≡ false) → count_from p s n ≡ 0
  unfolding count_from
  count_from_none s zero h = refl
  count_from_none s (suc n) h =
      ground
        (arith, h s, count_from_none (s + 1) n (λ u from before. h u (omega arith) (omega arith)))
