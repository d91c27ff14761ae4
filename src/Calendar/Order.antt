-- ===== src/Calendar/Order.antt =====
-- The months follow one another, and so a day lies in one month.
use amocrm_analytics.Base.{
  ℕ, zero, suc, ◌+◌, ◌-◌, ◌*◌, ◌/◌, ◌%◌, ◌≤◌, ◌<◌, ◌≡◌, refl, List, [], ◌∷◌, arith, ◌⊎◌, inl, inr,
}
use amocrm_analytics.Calendar.{leap, month_lengths, sum_first, make_day, civil_date}
use amocrm_analytics.Calendar.Walk.{make_day_in_year, month-civil_date}
use amocrm_analytics.Calendar.Months.{month_encloses, next_month, month_past}

sum_first_le : (m : ℕ) (ls : List ℕ) → sum_first m ls ≤ sum_first (suc m) ls
unfolding sum_first
sum_first_le zero [] = omega arith
sum_first_le zero (l ∷ ls) = omega arith
sum_first_le (suc m) [] = omega arith
sum_first_le (suc m) (l ∷ ls) = omega (arith, sum_first_le m ls)

-- The first of a month depends on the number of months since the first year.
same_month : (y m z n : ℕ) → 12 * y + m ≡ 12 * z + n → make_day y m 1 ≡ make_day z n 1
unfolding make_day
same_month y m z n h =
    let year : y + m / 12 ≡ z + n / 12 = omega arith in
    let month : m % 12 ≡ n % 12 = omega arith in rw (year, month) refl

month_le : (y m : ℕ) → 1970 ≤ y → make_day y m 1 ≤ make_day y (m + 1) 1
month_le y m h =
    let q = y + m / 12 in
    let here = same_month y m q (m % 12) (omega arith) in
    let later = same_month y (m + 1) q (m % 12 + 1) (omega arith) in
    let first = make_day_in_year q (m % 12) 1 (omega arith) in
    let second = next_month q (m % 12) (omega arith) (omega arith) in
    let sum = sum_first_le (m % 12) (month_lengths (leap q)) in omega arith

months_le : (y m k : ℕ) → 1970 ≤ y → make_day y m 1 ≤ make_day y (m + k) 1
months_le y m zero h = rw (same_month y (m + 0) y m (omega arith)) (omega arith)
months_le y m (suc k) h =
    let rest = months_le y m k h in
    let last = month_le y (m + k) h in
    let same = same_month y (m + suc k) y (m + k + 1) (omega arith) in omega arith

earlier_month :
    (y m z n : ℕ) → 1970 ≤ y → 12 * y + m + 1 ≤ 12 * z + n → make_day y (m + 1) 1 ≤ make_day z n 1
earlier_month y m z n h k =
    let distance = (12 * z + n) - (12 * y + m + 1) in
    let steps = months_le y (m + 1) distance h in
    let same = same_month y (m + 1 + distance) z n (omega arith) in omega arith

-- A day between the first of a month and the first of the next one has that month in its date.
pub month_of-day :
    (y m n : ℕ)
    → 1970 ≤ y
    → m < 12
    → make_day y m 1 ≤ n
    → n < make_day y (m + 1) 1
    → ((civil_date n).year ≡ y) × ((civil_date n).month ≡ m)
month_of-day y m n h k first last =
    let (own_first, own_last) = month_encloses n in
    let (after, past) = month_past n in
    let bound = month-civil_date n in
    elim (split (12 * y + m) (12 * (civil_date n).year + (civil_date n).month)) [
      | inl before ↦
          let earlier =
            earlier_month y m (civil_date n).year (civil_date n).month h (omega arith) in
          absurd (omega arith)
      | inr (inl same) ↦ (omega arith, omega arith)
      | inr (inr over) ↦
          let earlier =
            earlier_month (civil_date n).year (civil_date n).month y m after (omega arith) in
          absurd (omega arith)
    ]
  where
    split : (a b : ℕ) → (a < b) ⊎ ((a ≡ b) ⊎ (b < a))
    split a b = ground arith
