-- ===== src/Scheduler/Tests.antt =====
-- A worker with the default settings, a minute after its last sync.
use amocrm_analytics.Base.{ℕ, ◌≡◌, refl, true, false, none, some}
use amocrm_analytics.Scheduler.{
  all_roles, incremental, unset, Settings, Connection, Busy, World, trigger, trigger_webhook_queue,
  reconcile_recent_changes, get_sync_interval_minutes, interval,
  get_recent_reconcile_interval_seconds, pull_sync_job_types_for_role, runs_sync_worker, is_due,
  is_recent_reconcile_due, latest, last_sync, oldest_queued,
}
use amocrm_analytics.Scheduler.Handlers.{
  tick, scheduled_sync, reconcile_recent_amo_changes, enter_webhook_queue, process_webhook_queue,
  finished,
}

abbrev defaults : Settings
defaults = record {
  worker_role = all_roles;
  sync_interval_minutes = unset;
  webhook_check_minutes = unset;
  email_notes_seconds = unset;
  recent_reconcile_seconds = unset;
  lead_sla_seconds = unset;
  crm_state_seconds = unset;
}

-- Synced at 100 s, reconciled at the given time.
abbrev synced : ℕ → Connection
synced reconciled = record {
  last_pull_sync_at = some 100_000;
  last_incremental_sync_at = none;
  last_full_sync_at = some 50_000;
  email_notes_synced_at = none;
  recent_reconcile_at = some reconciled;
  recent_reconcile_error_at = none;
  lead_sla_reconcile_at = none;
  webhook_ensured_at = none;
}

abbrev nothing_runs : Busy
nothing_runs = record {
  pull_sync = false;
  webhook = false;
  webhook_subscription = false;
  email_notes = false;
  recent_reconcile = false;
  lead_sla_reconcile = false;
  crm_state_notifications = false;
}

abbrev world : ℕ → World
world reconciled = record {
  now = 160_000;
  connection = some (synced reconciled);
  queued_full = none;
  queued_incremental = none;
  queued_jobs = 0;
  running_jobs = 0;
  pending_events = 3;
  last_crm_state_notifications_at = 0;
}

timers : Unit {0}
unfolding get_sync_interval_minutes interval get_recent_reconcile_interval_seconds
    pull_sync_job_types_for_role runs_sync_worker is_due is_recent_reconcile_due latest last_sync
    oldest_queued tick scheduled_sync reconcile_recent_amo_changes process_webhook_queue finished
timers = tt

triggers :
    (tick defaults nothing_runs nothing_runs (world 150_000)).call ≡ some (trigger incremental)
unfolding timers
triggers = refl

abbrev pending : World
pending = world 150_000

abbrev webhook_runs : Busy
webhook_runs = record nothing_runs { webhook = true }

-- The flag is set at once, and reset if there is no event.
enters : enter_webhook_queue defaults nothing_runs ≡ some webhook_runs
unfolding timers enter_webhook_queue
enters = refl

enters_once : enter_webhook_queue defaults webhook_runs ≡ none
unfolding timers enter_webhook_queue
enters_once = refl

webhook_called : (process_webhook_queue webhook_runs pending).call ≡ some trigger_webhook_queue
unfolding timers
webhook_called = refl

nothing_pending :
    (process_webhook_queue webhook_runs (record pending { pending_events = 0 })).busy ≡ nothing_runs
unfolding timers
nothing_pending = refl

-- A reconciliation that begins while another one reads: both tests came before either flag was set.
overlaps :
    (reconcile_recent_amo_changes defaults nothing_runs
      (record nothing_runs { recent_reconcile = true })
      (world 90_000)).call
    ≡ some reconcile_recent_changes
unfolding timers
overlaps = refl
