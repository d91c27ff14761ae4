-- ===== src/Sync/Inbox/Tests.antt =====
-- Runs of a job over three events: two of one deal, of which the request fails, and one without an id.
use amocrm_analytics.Base.{
  ℕ, ◌≡◌, refl, Bool, true, false, Option, none, some, List, [], ◌∷◌, length,
}
use amocrm_analytics.Sync.Inbox.{
  EntityText, ActionText, InboxEvent, received, by_external, key_of, external_id_of,
  webhook_payload_external_id, normalize_webhook_entity, leads, WebhookEventGroup,
  group_webhook_events, mark_deleted, process_webhook_group, raw_events_ready, batch_of,
  mark_raw_amo_event, GroupOutcome, process_groups, run_webhook_job,
}
use amocrm_analytics.Sync.Inbox.Grouped.{
  have_own_keys, keyed_group_count, keyed_event_count, group_webhook_events-keyed_count,
}
use amocrm_analytics.Sync.Inbox.Settled.{Rows, run_webhook_job-Rows}

abbrev lead_text : EntityText
lead_text = record {
  has_lead = true;
  has_task = false;
  has_contact = false;
  has_message = false;
  has_compan = false;
  has_customer = false;
  text = 0;
}

abbrev plain : (is_delete : Bool) → ActionText
plain is_delete = record {
  has_delete = is_delete;
  has_note = false;
  has_message = false;
  has_mail = false;
}

abbrev event :
    (id : ℕ) → (external_id : Option ℕ) → (is_delete : Bool) → (received_at : ℕ) → InboxEvent
event id external_id is_delete received_at = record {
  id = id;
  webhook_event_id = none;
  entity = lead_text;
  action = plain is_delete;
  external_id = external_id;
  payload = record { is_object = true; contact_id = none; note_id = some 3 };
  status = received;
  attempts = 0;
  received_at = received_at;
  next_attempt_at = none;
  processed_at = none;
  applied_at = none;
}

abbrev inbox : List InboxEvent
inbox = event 1 (some 70) false 30 ∷ event 2 none false 20 ∷ event 3 (some 70) true 10 ∷ []

abbrev outcome : WebhookEventGroup → GroupOutcome
outcome g = record { returns = false; at = 500 }

computed : Unit {0}
unfolding normalize_webhook_entity webhook_payload_external_id external_id_of key_of
    group_webhook_events process_webhook_group raw_events_ready batch_of mark_raw_amo_event
    process_groups run_webhook_job
computed = tt

two_groups : length (group_webhook_events (batch_of 100 inbox)) ≡ 2
unfolding computed
two_groups = refl

abbrev deal_group : WebhookEventGroup
deal_group = record {
  key = by_external 0 70;
  entity = leads;
  external_id = some 70;
  ids = 3 ∷ 1 ∷ [];
  actions = plain true ∷ plain false ∷ [];
}

-- A deletion wins over a later change of the same deal.
deletion_wins : process_webhook_group deal_group ≡ mark_deleted leads 70
unfolding computed
deletion_wins = refl

abbrev attempts_of : List InboxEvent → List ℕ
attempts_of [] = []
attempts_of (e ∷ es) = e.attempts ∷ attempts_of es

abbrev retries_of : List InboxEvent → List (Option ℕ)
retries_of [] = []
retries_of (e ∷ es) = e.next_attempt_at ∷ retries_of es

all_tried : attempts_of (run_webhook_job outcome 100 inbox) ≡ 1 ∷ 1 ∷ 1 ∷ []
unfolding computed
all_tried = refl

-- Those of the deal are tried again a minute later, and the one without an id is skipped.
retried : retries_of (run_webhook_job outcome 100 inbox) ≡ some 60_500 ∷ none ∷ some 60_500 ∷ []
unfolding computed
retried = refl

group_webhook_events-keyed_count_example :
    (have_own_keys (group_webhook_events inbox) ≡ true)
    × (keyed_group_count (by_external 0 70) 3 (group_webhook_events inbox)
        ≡ keyed_event_count (by_external 0 70) 3 inbox)
group_webhook_events-keyed_count_example =
    group_webhook_events-keyed_count inbox (by_external 0 70) 3

run_webhook_job-Rows_example :
    Rows outcome
      (group_webhook_events (batch_of 100 inbox))
      (batch_of 100 inbox)
      inbox
      (run_webhook_job outcome 100 inbox)
run_webhook_job-Rows_example = run_webhook_job-Rows outcome 100 inbox refl
