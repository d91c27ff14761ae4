-- ===== src/Lib.antt =====
-- A verification library for amoCRM analytics, a service that copies a CRM into a database and
-- reports on it. The server is under apps/api/src, the web client under apps/web/src. A worker's timers
-- call the synchronisation, which asks the amoCRM client; the CRM control checks the copied deals by
-- the business calendar, keeps a case for each violation and queues texts for a local analysis;
-- accounts and workspaces decide who sees what, and workspaces link shipments to sales.
--
-- Base        shared names, Boolean tests, lists.
-- Calendar    the civil calendar of the language's `Date`, from 1970 on: `make_day` is the day part of
--             `Date.UTC`, `civil_date` the getters of the date, `week_day` is `getUTCDay`.
-- Moscow      apps/api/src/common/date.util.ts: working time, its next start, adding and measuring it.
--             `moscow_parts`, `moscow_date`, `next_moscow_business_start`, `add_moscow_business_time`,
--             `moscow_business_elapsed_ms` and `moscow_weekday_elapsed_ms` are the functions of those
--             names; `Moscow.Zone` says what they need of the time zone database: their theorems are
--             about dates from 2014-10-26 on, when the clock of Moscow moved to UTC+3.
-- Control     apps/api/src/crm-control: the checks of how the CRM is kept.
--             Control.Counts    the counts and the completion of a run (crm-control.logic.ts).
--             Control.Cases     the life of a violation (crm-control.logic.ts, crm-control.service.ts).
--             Control.Deadline  the deadline of a stage (crm-control-deadline.ts).
--             Control.Inputs    what the check of a deal reads (crm-control.types.ts).
--             Control.Rules     `evaluateCrmControlDeal`, one function for each rule
--                               (crm-control.rules.ts).
--             Control.Effective what a result counts as after decisions and analysis, and the review
--                               by a person (crm-control.service.ts, crm-control-analysis.projection.ts).
--             Control.Runs      the queue of the runs: lease, heartbeat, end (crm-control.service.ts).
--             Control.Settings  validation and storage of the settings (crm-control.service.ts).
--             Control.Screenshots the queue of the screenshots (crm-control.service.ts).
--             Control.Review    manual review, the daily slot and the stop of the worker
--                               (crm-control.logic.ts, crm-control-worker-lifecycle.ts).
-- Analysis    the queue of the local analysis (crm-control/crm-control-analysis.service.ts).
-- Batch       the backfill of that queue (crm-control/crm-control-analysis-batch.service.ts).
-- Semantic    the verdict over the facts that the analysis found
--             (crm-control/crm-control-semantic.policy.ts).
--             Semantic.Grounding the validation of an answer before that verdict
--                               (crm-control/crm-control-semantic.validation.ts).
-- Metrics     the samples of request times (apps/api/src/common/api-memory.interceptor.ts).
-- Sync        the synchronisation (apps/api/src/amo/amo-sync.service.ts).
--             Sync.Jobs      the requests for jobs, their runs and the cursors of the connection.
--             Sync.Windows   the windows of `syncEvents`, their halving and the position of a resume.
--             Sync.Recent    `reconcileRecentChanges`: the span of an attempt and its pages.
--             Sync.Inbox     the inbox of the webhooks: `groupWebhookEvents` and `runWebhookJob`.
-- Scheduler   the timers of the sync worker (apps/api/src/amo/amo-scheduler.service.ts).
-- Client      the attempts of a request with the refresh of its token, and the walk over pages;
--             Client.Rate is the rate limit (apps/api/src/amo/amo-client.ts).
-- Accounts    login and new accounts (apps/api/src/auth/auth.service.ts), and the guard of roles.
-- Workspaces  scopes, departments and employees
--             (apps/api/src/workspaces/workspace-access.service.ts), and the boundary of routes
--             (apps/api/src/workspaces/workspace-boundary.interceptor.ts).
--             Workspaces.Shipments the sale that a shipment comes from and the links of a reconciliation
--                               (shipment-link-policy.ts, commercial-links.service.ts of that directory).
--             Workspaces.Sales  the reading of a document of sales (rivile-sales.ts).
--             Workspaces.Invites invitations of managers and changes of accounts
--                               (workspace-onboarding.service.ts, workspaces.service.ts).
--             Workspaces.Period the period of a report (performance-period.ts).
--
-- Instants are milliseconds since 1970, and local times are milliseconds of the wall clock. The zone
-- is a parameter `civil`, the wall clock of an instant, since the time zone database is not code of
-- the repository; so are the network, password hashes and token signatures. Loops that the sources
-- leave unbounded run on fuel: the calendar loops need more fuel than the milliseconds they cover, the
-- loop over business days three rounds for each of them, the walk over pages one more than the full
-- pages, the halving of a window as many rounds as it has seconds (one without an end, of a start in the
-- future, may be halved for ever, as in the source), the pages of deals one more than the
-- rows that may be read, and the theorems prove that this is enough; the pages of recent events repeat
-- ids, and their fuel is an argument. Transactions of the database are single steps, and
-- the state machines of cases, jobs, runs, screenshots, batches and timers are step relations over
-- them. Identifiers are numbers, and texts that are only shown are left out. Not modelled: input and output, the database
-- client, the pages, statistics in floating point (reports, forecasts, rankings), the regular
-- expressions over texts (their results are Booleans or fields of the input), and the copies that the
-- synchronisation writes.
pub mod Accounts
pub mod Analysis
pub mod Base
pub mod Batch
pub mod Calendar
pub mod Client
pub mod Control
pub mod Metrics
pub mod Moscow
pub mod Scheduler
pub mod Semantic
pub mod Sync
pub mod Workspaces
