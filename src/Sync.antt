-- ===== src/Sync.antt =====
-- The synchronisation with amoCRM (apps/api/src/amo/amo-sync.service.ts).
pub mod Windows
pub mod Recent
pub mod Inbox
pub mod Jobs
