-- ===== src/Client/Rate/Spaced.antt =====
-- How far apart requests start.
use amocrm_analytics.Base.{
  ℕ, ◌+◌, ◌*◌, ◌-◌, ◌≤◌, ◌≡◌, ◌&&◌, Option, none, some, List, [], ◌∷◌, ltb, leb, All, arith,
  if◌then◌else◌, Option-cases, inl, inr,
}
use amocrm_analytics.Client.Rate.{Round, min_delay_ms, wait_loop, wait_for_rate_limit}

-- The clock does not go back within a round.
abbrev pub IsTimely : Round → Type 0
IsTimely r = (r.now ≤ r.refreshed_at) × (r.refreshed_at ≤ r.slot_at)

abbrev pub AreTimely : List (List Round) → Type 0
AreTimely requests = All (All IsTimely) requests

-- Each time is at least the delay after the one before.
abbrev pub Spaced : (delay last : ℕ) → List ℕ → Type 0
Spaced delay last [] = Unit
Spaced delay last (t ∷ ts) = (last + delay ≤ t) × Spaced delay t ts

wait_loop-later :
    (delay last t : ℕ) (rounds : List Round)
    → All IsTimely rounds
    → wait_loop delay last rounds ≡ some t
    → last + delay ≤ t
unfolding wait_loop
wait_loop-later delay last t [] timely e = cc
wait_loop-later delay last t (r ∷ rs) (timely, rest) e =
    ground (arith, wait_loop-later delay last t rs rest)

Spaced-weaken : (delay a b : ℕ) (ts : List ℕ) → a ≤ b → Spaced delay b ts → Spaced delay a ts
Spaced-weaken delay a b [] h s = tt
Spaced-weaken delay a b (t ∷ ts) h (first, rest) = (omega arith, rest)

wait_for_rate_limit-Spaced :
    (delay last : ℕ) (requests : List (List Round))
    → AreTimely requests
    → Spaced delay last (wait_for_rate_limit delay last requests)
unfolding wait_for_rate_limit
wait_for_rate_limit-Spaced delay last [] timely = tt
wait_for_rate_limit-Spaced delay last (rounds ∷ later) (timely, rest) =
    elim (Option-cases (wait_loop delay last rounds)) [
      | inl e ↦ rw e (wait_for_rate_limit-Spaced delay last later rest)
      | inr (t, e) ↦ rw e (
        wait_loop-later delay last t rounds timely e,
        wait_for_rate_limit-Spaced delay t later rest,
      )
    ]

-- How many of the times lie in the second from `from` on.
abbrev pub in_second : (from : ℕ) → List ℕ → ℕ
in_second from [] = 0
in_second from (t ∷ ts) = (if leb from t && ltb t (from + 1_000) then 1 else 0) + in_second from ts

in_second-bound :
    (delay last from : ℕ) (ts : List ℕ)
    → 160 ≤ delay
    → Spaced delay last ts
    → 160 * in_second from ts ≤ from + 999 - last
in_second-bound delay last from [] h s = omega arith
in_second-bound delay last from (t ∷ ts) h (first, rest) =
    let later = in_second-bound delay t from ts h rest in ground arith

in_second-le :
    (delay last from : ℕ) (ts : List ℕ) → 160 ≤ delay → Spaced delay last ts → in_second from ts ≤ 7
in_second-le delay last from [] h s = omega arith
in_second-le delay last from (t ∷ ts) h (first, rest) =
    let few = in_second-le delay t from ts h rest in
    let later = in_second-bound delay t from ts h rest in ground arith

min_delay_ms-le : (interval : Option ℕ) → 160 ≤ min_delay_ms interval
unfolding min_delay_ms
min_delay_ms-le none = omega arith
min_delay_ms-le (some n) = omega arith

-- With any interval, whatever the pauses do and whichever requests are aborted, at most seven requests start
-- within any second, if the clock does not go back within a round of the wait.
pub wait_for_rate_limit-in_second :
    (interval : Option ℕ) (last from : ℕ) (requests : List (List Round))
    → AreTimely requests
    → in_second from (wait_for_rate_limit (min_delay_ms interval) last requests) ≤ 7
wait_for_rate_limit-in_second interval last from requests timely =
    in_second-le (min_delay_ms interval) last from
      (wait_for_rate_limit (min_delay_ms interval) last requests) (min_delay_ms-le interval)
      (wait_for_rate_limit-Spaced (min_delay_ms interval) last requests timely)
