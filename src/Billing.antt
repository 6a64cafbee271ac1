-- ===== src/Billing.antt =====
-- crm/billing: invoices, payments, payment plans and payment links.
pub mod Money
pub mod Calendar
pub mod Records
pub mod Store
pub mod Draft
pub mod Sync
pub mod Service
pub mod Plans
pub mod Links
pub mod Reported
pub mod Operations
mod Tests
