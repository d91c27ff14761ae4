-- ===== src/Client/Rate/Tests.antt =====
-- Three requests, of which the second is aborted.
use amocrm_analytics.Base.{◌≤◌, ◌≡◌, refl, none, List, [], ◌∷◌, arith}
use amocrm_analytics.Client.Rate.{Round, min_delay_ms, wait_loop, wait_for_rate_limit}
use amocrm_analytics.Client.Rate.Spaced.{AreTimely, in_second, wait_for_rate_limit-in_second}

abbrev at_once : Round
at_once = record {
  now = 1_000;
  paused_until = 0;
  refreshed_at = 1_050;
  paused_then = 0;
  slot_at = 1_050;
}

abbrev too_soon : Round
too_soon = record {
  now = 1_100;
  paused_until = 0;
  refreshed_at = 1_100;
  paused_then = 0;
  slot_at = 1_100;
}

abbrev paused_meanwhile : Round
paused_meanwhile = record {
  now = 1_210;
  paused_until = 0;
  refreshed_at = 1_300;
  paused_then = 3_000;
  slot_at = 1_300;
}

abbrev after_pause : Round
after_pause = record {
  now = 3_000;
  paused_until = 3_000;
  refreshed_at = 3_000;
  paused_then = 3_000;
  slot_at = 3_001;
}

abbrev requests : List (List Round)
requests = (at_once ∷ []) ∷ (too_soon ∷ []) ∷ (too_soon ∷ paused_meanwhile ∷ after_pause ∷ []) ∷ []

starts : wait_for_rate_limit (min_delay_ms none) 0 requests ≡ 1_050 ∷ 3_001 ∷ []
unfolding wait_for_rate_limit wait_loop min_delay_ms
starts = refl

timely : AreTimely requests
timely = (
  ((omega arith, omega arith), tt),
  (
    ((omega arith, omega arith), tt),
    (
      ((omega arith, omega arith), ((omega arith, omega arith), ((omega arith, omega arith), tt))),
      tt,
    ),
  ),
)

wait_for_rate_limit-in_second_example :
    in_second 1_000 (wait_for_rate_limit (min_delay_ms none) 0 requests) ≤ 7
wait_for_rate_limit-in_second_example = wait_for_rate_limit-in_second none 0 1_000 requests timely
