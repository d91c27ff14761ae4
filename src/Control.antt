-- ===== src/Control.antt =====
-- CRM control (apps/api/src/crm-control): the checks of how the CRM is kept, deal by deal.
pub mod Types
pub mod Counts
pub mod Cases
pub mod Deadline
pub mod Inputs
pub mod Rules
pub mod Review
pub mod Effective
pub mod Runs
pub mod Settings
pub mod Screenshots
