-- ===== src/Subscription.antt =====
-- internal/modules/billing: subscriptions, the plan that a host has, and the events of the payment
-- provider that change them.
pub mod Domain
pub mod Plans
pub mod Changes
pub mod Standing
pub mod Events
pub mod Frame
pub mod Updates
pub mod Refinement
pub mod Entitlement
pub mod Webhook
pub mod Provider
pub mod Records
pub mod Invoices
pub mod Lapse
pub mod Requests
pub mod Reminders
