-- ===== src/Control/Cases/Tests.antt =====
-- A case that is opened, exempted for a day, and opened again.
use amocrm_analytics.Base.{◌≡◌, refl, true, false, none, some, [], ◌∷◌}
use amocrm_analytics.Control.Types.{pass, fail, open_case, exempted, resolved}
use amocrm_analytics.Control.Cases.{
  Case, CaseResult, next_control_case_state, write_case, record_result, DecisionInput, rop, exempt,
  decide, decided, is_superseded, is_assessed,
}
use amocrm_analytics.Control.Cases.Life.{opened_by, ruled, here, next, IsSound, Reach-IsSound}

abbrev failing : CaseResult
failing = record { status = fail; resolves_prior = false }

abbrev passing : CaseResult
passing = record { status = pass; resolves_prior = false }

abbrev opened : Case
opened = record {
  status = open_case;
  active = true;
  exemption_until = none;
  confirmed_at = none;
  assessment_hash = 7;
  resolved_at = none;
  last_detected_at = 100;
  latest_observation = 1;
}

abbrev exemption : DecisionInput
exemption = record {
  action = exempt;
  reason_length = 40;
  trimmed_length = 38;
  valid_until = some 900;
}

abbrev let_off : Case
let_off = record opened { status = exempted; exemption_until = some 900 }

abbrev done : Case
done = record opened {
  status = resolved;
  active = false;
  resolved_at = some 300;
  latest_observation = 3;
}

opens : (record_result none failing 7 100 1).current ≡ some opened
unfolding record_result next_control_case_state write_case
opens = refl

exempts : decide rop exemption ((fail, fail) ∷ []) opened opened none none 200 ≡ decided let_off
unfolding decide is_assessed
exempts = refl

resolves : (record_result (some opened) passing 7 300 3).current ≡ some done
unfolding record_result next_control_case_state write_case is_superseded
resolves = refl

Reach-IsSound_example : IsSound true let_off
Reach-IsSound_example =
    Reach-IsSound (opened_by failing 7 100 1 opens)
      (next here (ruled rop exemption ((fail, fail) ∷ []) opened none none 200 exempts))
