-- ===== src/Tests.antt =====
-- Tests by evaluation, and the theorems at concrete inputs.
mod Samples
mod Ids
mod Quotas
mod Webhooks
mod Limits
mod Profiles
mod Finalizers
mod Starts
mod Systems
mod Deliveries
mod Harmonies
mod Precedence
mod Errors
