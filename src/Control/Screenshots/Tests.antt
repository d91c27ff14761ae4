-- ===== src/Control/Screenshots/Tests.antt =====
-- A screenshot that fails once and is then taken.
use amocrm_analytics.Base.{◌≡◌, ◌⊎◌, refl, true, false, none, some, arith}
use amocrm_analytics.Control.Screenshots.{
  pending, running, ready, failed, Evidence, is_ready, expire_evidence, is_waiting, claim_evidence,
  retry_at, not_captured, captured, broken, evidence_is_leased, finish_evidence, retry_evidence,
  matches, capture_owner_matches,
}
use amocrm_analytics.Control.Screenshots.Attempts.{
  IsTried, Reach, here, next, claimed, finished, Reach-IsKept,
}

abbrev asked : Evidence
asked = record {
  status = pending;
  attempts = 0;
  started_at = none;
  next_attempt_at = none;
  storage_key = none;
}

abbrev first_try : Evidence
first_try = record asked { status = running; attempts = 1; started_at = some 100 }

abbrev failed_once : Evidence
failed_once = record first_try { status = failed; next_attempt_at = some 30_200 }

abbrev second_try : Evidence
second_try = record first_try { attempts = 2; started_at = some 30_200 }

abbrev taken : Evidence
taken = record second_try { status = ready; storage_key = some 8 }

computed : Unit {0}
unfolding expire_evidence is_waiting claim_evidence retry_at evidence_is_leased finish_evidence
    retry_evidence capture_owner_matches
computed = tt

claims : claim_evidence 100 asked ≡ some first_try
unfolding computed
claims = refl

fails : finish_evidence 200 (not_captured true) first_try first_try ≡ failed_once
unfolding computed
fails = refl

too_early : claim_evidence 30_199 failed_once ≡ none
unfolding computed
too_early = refl

claims_again : claim_evidence 30_200 failed_once ≡ some second_try
unfolding computed
claims_again = refl

takes : finish_evidence 30_300 (captured 8) second_try second_try ≡ taken
unfolding computed
takes = refl

too_late : finish_evidence 30_300 broken first_try second_try ≡ second_try
unfolding computed
too_late = refl

asked_again : retry_evidence true failed_once ≡ some asked
unfolding computed
asked_again = refl

same_owner :
    capture_owner_matches (some (some 4)) (some (some 7)) (record {
      same_domain = true;
      lead_matches = true;
      responsible = 4;
      user_is_read = true;
      group = some 7;
    })
    ≡ matches
unfolding computed
same_owner = refl

asked-IsTried : IsTried asked
asked-IsTried = record { few = omega arith; fresh = λ h. refl; started = λ h. cc; saved = λ h. cc }

to_taken : Reach second_try taken
unfolding computed
to_taken = next here (finished 30_300 (captured 8) second_try)

to_second_try : Reach asked second_try
unfolding computed
to_second_try =
    next (next (next here (claimed 100 claims)) (finished 200 (not_captured true) first_try))
      (claimed 30_200 claims_again)

Reach-IsKept_example : IsTried taken × ((is_ready running ≡ false) ⊎ (taken ≡ second_try))
Reach-IsKept_example = Reach-IsKept {d = second_try} asked-IsTried to_second_try to_taken
