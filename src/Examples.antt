-- ===== src/Examples.antt =====
-- Runs of the modelled code on small inputs, and the theorems at inputs that meet their hypotheses.
mod Circuit
mod Budget
mod Jobs
mod Outbox
mod Guard
mod Webhook
mod AssetCache
mod Intake
mod RateLimit
mod Resilience
mod HostVerdicts
mod RunResult
mod Target
