-- ===== src/Scheduler/Fair.antt =====
-- When the timers start work, and that they leave each other room.
use amocrm_analytics.Base.{
  ℕ, ◌+◌, ◌*◌, ◌<◌, ◌≡◌, refl, Bool, true, false, Option, none, some, arith, if◌then◌else◌,
}
use amocrm_analytics.Scheduler.{
  JobType, Settings, Connection, Busy, World, trigger, get_sync_interval_minutes,
  pull_sync_job_types_for_role, is_due, is_recent_reconcile_due, last_sync, sync_type,
  oldest_queued,
}
use amocrm_analytics.Scheduler.Handlers.{
  Started, idle, tick, scheduled_sync, no_types, pull, tick_on,
}

-- Why a sync was scheduled.
pub record IsScheduled (s : Settings) (busy : Busy) (w : World) (c : Connection) (kind : JobType)
    : Type 0 where
  pub connected : w.connection ≡ some c
  pub free : busy.pull_sync ≡ false
  pub nothing_queued : oldest_queued (pull_sync_job_types_for_role s.worker_role) w ≡ none
  pub no_jobs : w.queued_jobs + w.running_jobs ≡ 0
  pub first_is_full : kind ≡ sync_type (last_sync c)
  pub not_reconciling : is_recent_reconcile_due s c w.now ≡ false
  pub due : is_due (last_sync c) w.now (get_sync_interval_minutes s * 60_000) ≡ true
  pub configured : 0 < get_sync_interval_minutes s

scheduled_sync-IsScheduled :
    (s : Settings) (tested busy : Busy) (w : World) (c : Connection) (kind : JobType)
    → w.connection ≡ some c
    → tested.pull_sync ≡ false
    → oldest_queued (pull_sync_job_types_for_role s.worker_role) w ≡ none
    → (scheduled_sync s busy w c).call ≡ some (trigger kind)
    → IsScheduled s tested w c kind
unfolding scheduled_sync
scheduled_sync-IsScheduled s tested busy w c kind there free nothing e = ground arith

pull-IsScheduled :
    (s : Settings) (tested busy : Busy) (w : World) (c : Connection) (kind : JobType)
    (queued : Option ℕ)
    → w.connection ≡ some c
    → tested.pull_sync ≡ false
    → oldest_queued (pull_sync_job_types_for_role s.worker_role) w ≡ queued
    → (pull s busy w c queued).call ≡ some (trigger kind)
    → IsScheduled s tested w c kind
pull-IsScheduled s tested busy w c kind none there free nothing e =
    scheduled_sync-IsScheduled s tested busy w c kind there free nothing e
pull-IsScheduled s tested busy w c kind (some job) there free queued e = cc

tick_on-IsScheduled :
    (s : Settings) (tested busy : Busy) (w : World) (kind : JobType)
    (connection : Option Connection)
    → w.connection ≡ connection
    → tested.pull_sync ≡ false
    → (tick_on s busy w connection).call ≡ some (trigger kind)
    → (c : Connection) × IsScheduled s tested w c kind
tick_on-IsScheduled s tested busy w kind none there free e = cc
tick_on-IsScheduled s tested busy w kind (some c) there free e =
    (c, pull-IsScheduled s tested busy w c kind _ there free refl e)

-- If the timer of the sync triggers a sync, then a connection is there, no pull of this worker ran when the timer
-- fired, no
-- job of its types is queued, no job of the connection is queued or running, no reconciliation is due,
-- and the interval is positive and has passed since the last sync; the first sync is a full one and
-- every later one incremental.
pub tick-IsScheduled :
    (s : Settings) (tested busy : Busy) (w : World) (kind : JobType)
    → (tick s tested busy w).call ≡ some (trigger kind)
    → (c : Connection) × IsScheduled s tested w c kind
unfolding tick
tick-IsScheduled s tested busy w kind e =
    let none_started : (b : Bool) (x y : Started)
        → x.call ≡ none
        → (if b then x else y).call ≡ some (trigger kind)
        → (b ≡ false) × (y.call ≡ some (trigger kind)) =
      λ b x y n h. ground arith in
    let (typed, rest) = none_started (no_types _) (idle busy) _ refl e in
    let (free, started) = none_started tested.pull_sync (idle busy) _ refl rest in
    tick_on-IsScheduled s tested busy w kind w.connection refl free started
