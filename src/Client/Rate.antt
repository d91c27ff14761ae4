-- ===== src/Client/Rate.antt =====
-- When a request may start (`waitForRateLimit` of apps/api/src/amo/amo-client.ts). The slots are reserved one after another; the
-- clock, and the pauses that answers of other requests set meanwhile, are what each round of the loop reads.
pub mod Spaced
mod Tests
use amocrm_analytics.Base.{
  ℕ, ◌+◌, ◌*◌, ◌-◌, max, Bool, true, false, ◌&&◌, not, Option, none, some, List, [], ◌∷◌, ltb, leb,
  if◌then◌else◌,
}

-- One round: the time and the pause at the test, and after the token was made fresh, and the time that is
-- taken as the slot.
pub record Round : Type 0 where
  pub now : ℕ
  pub paused_until : ℕ
  pub refreshed_at : ℕ
  pub paused_then : ℕ
  pub slot_at : ℕ

-- `none` for an interval that is not a finite number.
unfoldable pub min_delay_ms : (interval : Option ℕ) → ℕ
min_delay_ms none = 160
min_delay_ms (some interval) = max 160 interval

-- The loop, with the rounds until it ends; without an end, the request was aborted.
unfoldable pub wait_loop : (delay last_request_at : ℕ) → List Round → Option ℕ
wait_loop delay last [] = none
wait_loop delay last (r ∷ rs) =
    let rest = wait_loop delay last rs in
    if ltb r.now (max (last + delay) r.paused_until)
    then rest
    else if leb r.paused_then r.refreshed_at
    then some r.slot_at
    else rest

abbrev serve_next : (slot : Option ℕ) (last : ℕ) (serve_after : ℕ → List ℕ) → List ℕ
serve_next none last serve_after = serve_after last
serve_next (some t) last serve_after = t ∷ serve_after t

-- The queue of the slots: the rounds of one request after the other, and when each started.
unfoldable pub wait_for_rate_limit : (delay last_request_at : ℕ) → List (List Round) → List ℕ
wait_for_rate_limit delay last [] = []
wait_for_rate_limit delay last (rounds ∷ later) =
    serve_next (wait_loop delay last rounds) last λ t. wait_for_rate_limit delay t later
