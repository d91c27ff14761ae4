-- ===== src/Sync/Inbox.antt =====
-- The inbox of webhook events (`rawAmoEventsReadyWhere`, `groupWebhookEvents`, `processWebhookGroup`,
-- `markRawAmoEvents` and the loop of `runWebhookJob` of apps/api/src/amo/amo-sync.service.ts). The texts of
-- an entity and of an action are given by the tests that the code makes on them. What the requests of a
-- group do is `outcome`: whether they return, and when. The
-- same marks on the rows that the address of the webhook keeps are left out.
pub mod Grouped
pub mod Settled
mod Tests
use amocrm_analytics.Base.{
  ℕ, zero, suc, ◌+◌, Bool, true, false, ◌&&◌, ◌||◌, not, Option, none, some, List, [], ◌∷◌, ◌++◌,
  leb, ◌==◌, any, all, filter, if◌then◌else◌,
}

pub record EntityText : Type 0 where
  pub has_lead : Bool
  pub has_task : Bool
  pub has_contact : Bool
  pub has_message : Bool
  pub has_compan : Bool
  pub has_customer : Bool
  pub text : ℕ

pub record ActionText : Type 0 where
  pub has_delete : Bool
  pub has_note : Bool
  pub has_message : Bool
  pub has_mail : Bool

pub data Entity : Type 0 where
  leads tasks contacts companies customers : Entity
  other_entity : ℕ → Entity

-- The ids in the object of a payload; `note_id` is that of its note, and else its own.
pub record Payload : Type 0 where
  pub is_object : Bool
  pub contact_id : Option ℕ
  pub note_id : Option ℕ

pub data EventStatus : Type 0 where
  received error_status applied skipped : EventStatus

pub record InboxEvent : Type 0 where
  pub id : ℕ
  pub webhook_event_id : Option ℕ
  pub entity : EntityText
  pub action : ActionText
  pub external_id : Option ℕ
  pub payload : Payload
  pub status : EventStatus
  pub attempts : ℕ
  pub received_at : ℕ
  pub next_attempt_at : Option ℕ
  pub processed_at : Option ℕ
  pub applied_at : Option ℕ

unfoldable pub normalize_webhook_entity : EntityText → Entity
normalize_webhook_entity e =
    if e.has_lead
    then leads
    else if e.has_task
    then tasks
    else if e.has_contact
    then contacts
    else if e.has_message
    then contacts
    else if e.has_compan
    then companies
    else if e.has_customer
    then customers
    else other_entity e.text

abbrev pub or_else : Option ℕ → Option ℕ → Option ℕ
or_else (some a) b = some a
or_else none b = b

unfoldable pub webhook_payload_external_id : ActionText → Payload → Option ℕ
webhook_payload_external_id action payload =
    if not payload.is_object
    then none
    else or_else payload.contact_id (if not action.has_note then none else payload.note_id)

abbrev pub entity_number : Entity → ℕ
entity_number leads = 0
entity_number tasks = 1
entity_number contacts = 2
entity_number companies = 3
entity_number customers = 4
entity_number (other_entity n) = 5 + n

pub data Key : Type 0 where
  by_external by_event : (entity id : ℕ) → Key

abbrev pub same_key : Key → Key → Bool
same_key (by_external e i) (by_external f j) = e == f && i == j
same_key (by_event e i) (by_event f j) = e == f && i == j
same_key _ _ = false

unfoldable pub external_id_of : InboxEvent → Option ℕ
external_id_of e = or_else e.external_id (webhook_payload_external_id e.action e.payload)

abbrev pub key_with : Option ℕ → (entity id : ℕ) → Key
key_with (some external) entity id = by_external entity external
key_with none entity id = by_event entity id

unfoldable pub key_of : InboxEvent → Key
key_of e = key_with (external_id_of e) (entity_number (normalize_webhook_entity e.entity)) e.id

-- The events of a group, the newest last.
pub record WebhookEventGroup : Type 0 where
  pub key : Key
  pub entity : Entity
  pub external_id : Option ℕ
  pub ids : List ℕ
  pub actions : List ActionText

abbrev pub new_group : InboxEvent → WebhookEventGroup
new_group e = record {
  key = key_of e;
  entity = normalize_webhook_entity e.entity;
  external_id = external_id_of e;
  ids = e.id ∷ [];
  actions = e.action ∷ [];
}

abbrev pub grown : InboxEvent → WebhookEventGroup → WebhookEventGroup
grown e g = record {
  key = g.key;
  entity = g.entity;
  external_id = g.external_id;
  ids = g.ids ++ e.id ∷ [];
  actions = g.actions ++ e.action ∷ [];
}

-- A map keeps the place of a key that it has.
abbrev pub put_event : InboxEvent → List WebhookEventGroup → List WebhookEventGroup
put_event e [] = new_group e ∷ []
put_event e (g ∷ gs) = if same_key g.key (key_of e) then grown e g ∷ gs else g ∷ put_event e gs

abbrev pub add_events : List InboxEvent → List WebhookEventGroup → List WebhookEventGroup
add_events [] gs = gs
add_events (e ∷ es) gs = add_events es (put_event e gs)

unfoldable pub group_webhook_events : List InboxEvent → List WebhookEventGroup
group_webhook_events es = add_events es []

pub data Processing : Type 0 where
  skip_no_id skip_unsupported : Processing
  mark_deleted : Entity → (external_id : ℕ) → Processing
  sync_single : Entity → (external_id : ℕ) → Processing

abbrev processing_of : Entity → (external_id : ℕ) → Processing
processing_of (other_entity n) external = skip_unsupported
processing_of entity external = sync_single entity external

abbrev processing_with : WebhookEventGroup → Option ℕ → Processing
processing_with g none = skip_no_id
processing_with g (some external) =
    if any (λ a. a.has_delete) g.actions
    then mark_deleted g.entity external
    else processing_of g.entity external

unfoldable pub process_webhook_group : WebhookEventGroup → Processing
process_webhook_group g = processing_with g g.external_id

abbrev pub event_is_due : Option ℕ → (now : ℕ) → Bool
event_is_due none now = true
event_is_due (some at) now = leb at now

abbrev pub awaits : EventStatus → Bool
awaits received = true
awaits error_status = true
awaits _ = false

abbrev pub is_given : Option ℕ → Bool
is_given none = false
is_given (some n) = true

unfoldable pub raw_events_ready : (now : ℕ) → InboxEvent → Bool
raw_events_ready now e =
    not (is_given e.applied_at) && (awaits e.status && event_is_due e.next_attempt_at now)

-- Insertion by the time of receipt, after those of the same time.
abbrev pub insert_event : InboxEvent → List InboxEvent → List InboxEvent
insert_event e [] = e ∷ []
insert_event e (f ∷ fs) =
    if leb f.received_at e.received_at then f ∷ insert_event e fs else e ∷ f ∷ fs

abbrev pub insert_all : List InboxEvent → (sorted : List InboxEvent) → List InboxEvent
insert_all [] sorted = sorted
insert_all (e ∷ es) sorted = insert_all es (insert_event e sorted)

abbrev pub take_events : ℕ → List InboxEvent → List InboxEvent
take_events zero es = []
take_events (suc n) [] = []
take_events (suc n) (e ∷ es) = e ∷ take_events n es

-- The oldest events that are ready, at most a hundred.
unfoldable pub batch_of : (now : ℕ) → (inbox : List InboxEvent) → List InboxEvent
batch_of now inbox = take_events 100 (insert_all (filter (λ e. raw_events_ready now e) inbox) [])

abbrev pub retry_ms : ℕ
retry_ms = 60_000

abbrev pub is_error : EventStatus → Bool
is_error error_status = true
is_error _ = false

abbrev pub has_id : List ℕ → (id : ℕ) → Bool
has_id ids id = any (λ i. i == id) ids

unfoldable pub mark_raw_amo_event :
    List ℕ → EventStatus → (processed_at : ℕ) → InboxEvent → InboxEvent
mark_raw_amo_event ids status at e = if not (has_id ids e.id) then e else record {
  id = e.id;
  webhook_event_id = e.webhook_event_id;
  entity = e.entity;
  action = e.action;
  external_id = e.external_id;
  payload = e.payload;
  status = status;
  attempts = e.attempts + 1;
  received_at = e.received_at;
  next_attempt_at = if is_error status then some (at + retry_ms) else none;
  processed_at = some at;
  applied_at = if is_error status then none else some at;
}

pub record GroupOutcome : Type 0 where
  pub returns : Bool
  pub at : ℕ

abbrev pub status_of : WebhookEventGroup → (returns : Bool) → EventStatus
status_of g returns =
    if not (is_given g.external_id) then skipped else if returns then applied else error_status

module _ (outcome : WebhookEventGroup → GroupOutcome) where
  -- What the groups, one after the other, make of a row.
  unfoldable pub process_groups : List WebhookEventGroup → InboxEvent → InboxEvent
  process_groups [] e = e
  process_groups (g ∷ gs) e =
      process_groups gs
        (mark_raw_amo_event g.ids (status_of g (outcome g).returns) (outcome g).at e)

  abbrev pub update_all : List WebhookEventGroup → List InboxEvent → List InboxEvent
  update_all gs [] = []
  update_all gs (e ∷ es) = process_groups gs e ∷ update_all gs es

  unfoldable pub run_webhook_job : (started_at : ℕ) → (inbox : List InboxEvent) → List InboxEvent
  run_webhook_job started_at inbox =
      update_all (group_webhook_events (batch_of started_at inbox)) inbox
