-- ===== src/Scheduler/Handlers.antt =====
-- The handlers of the timers. A handler but that of the webhook queue tests its flag, then reads, and sets the
-- flag only after its reads: `tested` is the flags at its start, `busy` those after its reads, and another
-- call may have begun between them.
use amocrm_analytics.Base.{
  ℕ, ◌+◌, ◌*◌, Bool, true, false, not, Option, none, some, List, [], ◌∷◌, ltb, ◌==◌, if◌then◌else◌,
}
use amocrm_analytics.Scheduler.{
  JobType, full, incremental, Settings, Connection, Busy, World, SyncCall, run_job, trigger,
  trigger_webhook_queue, sync_recent_email_notes, reconcile_recent_changes, reconcile_lead_sla,
  ensure_webhook_registered, process_crm_state_notifications, get_sync_interval_minutes,
  get_webhook_subscription_check_minutes, get_email_notes_sync_interval_seconds,
  get_recent_reconcile_interval_seconds, get_lead_sla_reconcile_interval_seconds,
  get_crm_state_notifications_interval_seconds, pull_sync_job_types_for_role, runs_sync_worker,
  runs_notification_worker, is_due, is_known, is_recent_reconcile_due, last_sync, sync_type,
  oldest_queued,
}

-- The call that a handler waits for, and the flags meanwhile.
pub record Started : Type 0 where
  pub call : Option SyncCall
  pub busy : Busy

abbrev pub idle : Busy → Started
idle busy = record { call = none; busy = busy }

abbrev pub start : SyncCall → Busy → Started
start call busy = record { call = some call; busy = busy }

abbrev has_type : JobType → List JobType → Bool
has_type full (full ∷ ts) = true
has_type incremental (incremental ∷ ts) = true
has_type t (_ ∷ ts) = has_type t ts
has_type t [] = false

abbrev pub no_types : List JobType → Bool
no_types [] = true
no_types (_ ∷ _) = false

-- The scheduled sync, when no job is queued.
unfoldable pub scheduled_sync : Settings → Busy → World → Connection → Started
scheduled_sync s busy w c =
    let kind = sync_type (last_sync c) in
    if get_sync_interval_minutes s == 0
    then idle busy
    else if is_recent_reconcile_due s c w.now
    then idle busy
    else if not (has_type kind (pull_sync_job_types_for_role s.worker_role))
    then idle busy
    else if not (is_due (last_sync c) w.now (get_sync_interval_minutes s * 60_000))
    then idle busy
    else if ltb 0 (w.queued_jobs + w.running_jobs)
    then idle busy
    else start (trigger kind) busy

abbrev pub pull : Settings → Busy → World → Connection → Option ℕ → Started
pull s busy w c (some job) = start (run_job job) (record busy { pull_sync = true })
pull s busy w c none = scheduled_sync s busy w c

abbrev pub tick_on : Settings → Busy → World → Option Connection → Started
tick_on s busy w none = idle busy
tick_on s busy w (some c) =
    pull s busy w c (oldest_queued (pull_sync_job_types_for_role s.worker_role) w)

unfoldable pub tick : Settings → (tested busy : Busy) → World → Started
tick s tested busy w =
    if no_types (pull_sync_job_types_for_role s.worker_role)
    then idle busy
    else if tested.pull_sync
    then idle busy
    else tick_on s busy w w.connection

-- The webhook queue sets its flag at once, before it reads anything; `none` if the handler returns.
unfoldable pub enter_webhook_queue : Settings → Busy → Option Busy
enter_webhook_queue s busy =
    if not (runs_sync_worker s.worker_role)
    then none
    else if busy.webhook
    then none
    else some (record busy { webhook = true })

abbrev webhook_queue_on : Busy → (pending : ℕ) → Option Connection → Started
webhook_queue_on busy pending none = idle (record busy { webhook = false })
webhook_queue_on busy pending (some c) =
    if pending == 0
    then idle (record busy { webhook = false })
    else start trigger_webhook_queue busy

-- The rest of the handler, with the flags after its reads; its `finally` if it makes no call.
unfoldable pub process_webhook_queue : Busy → World → Started
process_webhook_queue busy w = webhook_queue_on busy w.pending_events w.connection

abbrev email_notes_on : ℕ → Busy → World → Option Connection → Started
email_notes_on wait busy w none = idle busy
email_notes_on wait busy w (some c) =
    if not (is_known c.last_full_sync_at)
    then idle busy
    else if not (is_due c.email_notes_synced_at w.now (wait * 1000))
    then idle busy
    else start sync_recent_email_notes (record busy { email_notes = true })

unfoldable pub sync_email_notes : Settings → (tested busy : Busy) → World → Started
sync_email_notes s tested busy w =
    if not (runs_sync_worker s.worker_role)
    then idle busy
    else if tested.email_notes
    then idle busy
    else if get_email_notes_sync_interval_seconds s == 0
    then idle busy
    else email_notes_on (get_email_notes_sync_interval_seconds s) busy w w.connection

abbrev pub reconcile_on : Settings → Busy → World → Option Connection → Started
reconcile_on s busy w none = idle busy
reconcile_on s busy w (some c) =
    if not (is_known c.last_full_sync_at)
    then idle busy
    else if not (is_recent_reconcile_due s c w.now)
    then idle busy
    else if ltb 0 (w.queued_jobs + w.running_jobs)
    then idle busy
    else start reconcile_recent_changes (record busy { recent_reconcile = true })

unfoldable pub reconcile_recent_amo_changes : Settings → (tested busy : Busy) → World → Started
reconcile_recent_amo_changes s tested busy w =
    if not (runs_sync_worker s.worker_role)
    then idle busy
    else if tested.recent_reconcile
    then idle busy
    else if get_recent_reconcile_interval_seconds s == 0
    then idle busy
    else reconcile_on s busy w w.connection

abbrev lead_sla_on : ℕ → Busy → World → Option Connection → Started
lead_sla_on wait busy w none = idle busy
lead_sla_on wait busy w (some c) =
    if not (is_known c.last_full_sync_at)
    then idle busy
    else if not (is_due c.lead_sla_reconcile_at w.now (wait * 1000))
    then idle busy
    else if ltb 0 w.running_jobs
    then idle busy
    else start reconcile_lead_sla (record busy { lead_sla_reconcile = true })

unfoldable pub reconcile_lead_sla_candidates : Settings → (tested busy : Busy) → World → Started
reconcile_lead_sla_candidates s tested busy w =
    if not (runs_sync_worker s.worker_role)
    then idle busy
    else if tested.lead_sla_reconcile
    then idle busy
    else if get_lead_sla_reconcile_interval_seconds s == 0
    then idle busy
    else lead_sla_on (get_lead_sla_reconcile_interval_seconds s) busy w w.connection

abbrev subscription_on : ℕ → Busy → World → Option Connection → Started
subscription_on wait busy w none = idle busy
subscription_on wait busy w (some c) =
    if not (is_due c.webhook_ensured_at w.now (wait * 60_000))
    then idle busy
    else start ensure_webhook_registered (record busy { webhook_subscription = true })

unfoldable pub ensure_webhook_subscription : Settings → (tested busy : Busy) → World → Started
ensure_webhook_subscription s tested busy w =
    if not (runs_sync_worker s.worker_role)
    then idle busy
    else if tested.webhook_subscription
    then idle busy
    else if get_webhook_subscription_check_minutes s == 0
    then idle busy
    else subscription_on (get_webhook_subscription_check_minutes s) busy w w.connection

abbrev crm_state_on : Busy → Option Connection → Started
crm_state_on busy none = idle busy
crm_state_on busy (some c) =
    if not (is_known c.last_full_sync_at)
    then idle busy
    else start process_crm_state_notifications (record busy { crm_state_notifications = true })

unfoldable pub process_crm_state : Settings → (tested busy : Busy) → World → Started
process_crm_state s tested busy w =
    if not (runs_notification_worker s.worker_role)
    then idle busy
    else if tested.crm_state_notifications
    then idle busy
    else if get_crm_state_notifications_interval_seconds s == 0
    then idle busy
    else if ltb w.now
        (w.last_crm_state_notifications_at + get_crm_state_notifications_interval_seconds s * 1000)
    then idle busy
    else crm_state_on busy w.connection

-- The `finally` of the handler that made the call.
unfoldable pub finished : SyncCall → Busy → Busy
finished (run_job job) busy = record busy { pull_sync = false }
finished (trigger kind) busy = busy
finished trigger_webhook_queue busy = record busy { webhook = false }
finished sync_recent_email_notes busy = record busy { email_notes = false }
finished reconcile_recent_changes busy = record busy { recent_reconcile = false }
finished reconcile_lead_sla busy = record busy { lead_sla_reconcile = false }
finished ensure_webhook_registered busy = record busy { webhook_subscription = false }
finished process_crm_state_notifications busy = record busy { crm_state_notifications = false }
