-- ===== src/Connect.antt =====
-- crm/connect and crm/events: connections, what is sent, synced and received through them, and events.
pub mod Records
pub mod Policy
pub mod Delivery
pub mod Emission
pub mod Syncs
pub mod Webhooks
pub mod Settings
pub mod Services
pub mod Access
mod Examples
mod Tests
