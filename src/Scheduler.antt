-- ===== src/Scheduler.antt =====
-- The timers of the sync worker (`AmoSchedulerService` of
-- apps/api/src/amo/amo-scheduler.service.ts). A handler is given what it reads from the settings, the
-- database and the clock, and returns the call that it makes of the sync service, if it makes one,
-- with the busy flags that it leaves while the call runs; `finished` is its `finally`. Instants are
-- milliseconds since 1970, and intervals are whole numbers.
pub mod Handlers
pub mod Fair
mod Tests
use amocrm_analytics.Base.{
  ℕ, ◌+◌, ◌-◌, ◌*◌, max, Bool, true, false, ◌&&◌, ◌||◌, not, Option, none, some, List, [], ◌∷◌, ltb,
  leb, ◌==◌, if◌then◌else◌,
}

pub data WorkerRole : Type 0 where
  all_roles sync_role bootstrap_role notification_role other_role : WorkerRole

pub data JobType : Type 0 where
  full incremental : JobType

-- A number in the settings: no text, a text that is no finite number, a negative number, a number.
pub data RawNumber : Type 0 where
  unset not_finite negative : RawNumber
  number : ℕ → RawNumber

pub record Settings : Type 0 where
  pub worker_role : WorkerRole
  pub sync_interval_minutes : RawNumber
  pub webhook_check_minutes : RawNumber
  pub email_notes_seconds : RawNumber
  pub recent_reconcile_seconds : RawNumber
  pub lead_sla_seconds : RawNumber
  pub crm_state_seconds : RawNumber

-- The dates of a connection, those of its `config` included (`none` if they are not valid).
pub record Connection : Type 0 where
  pub last_pull_sync_at : Option ℕ
  pub last_incremental_sync_at : Option ℕ
  pub last_full_sync_at : Option ℕ
  pub email_notes_synced_at : Option ℕ
  pub recent_reconcile_at : Option ℕ
  pub recent_reconcile_error_at : Option ℕ
  pub lead_sla_reconcile_at : Option ℕ
  pub webhook_ensured_at : Option ℕ

pub record Busy : Type 0 where
  pub pull_sync : Bool
  pub webhook : Bool
  pub webhook_subscription : Bool
  pub email_notes : Bool
  pub recent_reconcile : Bool
  pub lead_sla_reconcile : Bool
  pub crm_state_notifications : Bool

-- What the handlers read: the oldest queued job of each type, the jobs that are
-- queued or running, the pending webhook events, and the clock.
pub record World : Type 0 where
  pub now : ℕ
  pub connection : Option Connection
  pub queued_full : Option ℕ
  pub queued_incremental : Option ℕ
  pub queued_jobs : ℕ
  pub running_jobs : ℕ
  pub pending_events : ℕ
  pub last_crm_state_notifications_at : ℕ

pub data SyncCall : Type 0 where
  run_job : ℕ → SyncCall
  trigger : JobType → SyncCall
  trigger_webhook_queue sync_recent_email_notes reconcile_recent_changes : SyncCall
  reconcile_lead_sla ensure_webhook_registered process_crm_state_notifications : SyncCall

unfoldable pub interval : (default least : ℕ) → RawNumber → ℕ
interval default least unset = default
interval default least not_finite = default
interval default least negative = least
interval default least (number n) = max least n

unfoldable pub get_sync_interval_minutes : Settings → ℕ
get_sync_interval_minutes s = interval 1 0 s.sync_interval_minutes

unfoldable pub get_webhook_subscription_check_minutes : Settings → ℕ
get_webhook_subscription_check_minutes s = interval 10 0 s.webhook_check_minutes

unfoldable pub get_email_notes_sync_interval_seconds : Settings → ℕ
get_email_notes_sync_interval_seconds s = interval 0 0 s.email_notes_seconds

unfoldable pub get_recent_reconcile_interval_seconds : Settings → ℕ
get_recent_reconcile_interval_seconds s = interval 60 30 s.recent_reconcile_seconds

unfoldable pub get_lead_sla_reconcile_interval_seconds : Settings → ℕ
get_lead_sla_reconcile_interval_seconds s = interval 0 0 s.lead_sla_seconds

unfoldable pub get_crm_state_notifications_interval_seconds : Settings → ℕ
get_crm_state_notifications_interval_seconds s = interval 300 0 s.crm_state_seconds

unfoldable pub pull_sync_job_types_for_role : WorkerRole → List JobType
pull_sync_job_types_for_role all_roles = full ∷ incremental ∷ []
pull_sync_job_types_for_role sync_role = incremental ∷ []
pull_sync_job_types_for_role bootstrap_role = full ∷ []
pull_sync_job_types_for_role _ = []

unfoldable pub runs_sync_worker : WorkerRole → Bool
runs_sync_worker all_roles = true
runs_sync_worker sync_role = true
runs_sync_worker _ = false

unfoldable pub runs_notification_worker : WorkerRole → Bool
runs_notification_worker all_roles = true
runs_notification_worker notification_role = true
runs_notification_worker _ = false

-- `!last || Date.now() - last >= interval`
unfoldable pub is_due : Option ℕ → (now interval : ℕ) → Bool
is_due none now wait = true
is_due (some last) now wait = leb (last + wait) now

-- The later of two dates: the first after the sort.
unfoldable pub latest : Option ℕ → Option ℕ → Option ℕ
latest none b = b
latest (some a) none = some a
latest (some a) (some b) = some (max a b)

abbrev pub is_known : Option ℕ → Bool
is_known none = false
is_known (some _) = true

unfoldable pub is_recent_reconcile_due : Settings → Connection → ℕ → Bool
is_recent_reconcile_due s c now =
    if not (is_known c.last_full_sync_at)
    then false
    else if get_recent_reconcile_interval_seconds s == 0
    then false
    else is_due (latest c.recent_reconcile_at c.recent_reconcile_error_at) now
        (get_recent_reconcile_interval_seconds s * 1000)

abbrev or_else : Option ℕ → Option ℕ → Option ℕ
or_else none b = b
or_else (some a) b = some a

-- The last pull of a connection, by the first date that is known.
unfoldable pub last_sync : Connection → Option ℕ
last_sync c = or_else c.last_pull_sync_at (or_else c.last_incremental_sync_at c.last_full_sync_at)

abbrev pub sync_type : Option ℕ → JobType
sync_type none = full
sync_type (some _) = incremental

abbrev earlier : Option ℕ → Option ℕ → Option ℕ
earlier none b = b
earlier (some a) none = some a
earlier (some a) (some b) = some (if ltb b a then b else a)

-- The oldest queued job of the given types; jobs are numbered in the order of their creation.
unfoldable pub oldest_queued : List JobType → World → Option ℕ
oldest_queued [] w = none
oldest_queued (full ∷ []) w = w.queued_full
oldest_queued (incremental ∷ []) w = w.queued_incremental
oldest_queued (_ ∷ _ ∷ _) w = earlier w.queued_full w.queued_incremental
