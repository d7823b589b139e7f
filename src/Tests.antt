-- ===== src/Tests.antt =====
-- Sample data, and each theorem with hypotheses or arguments at a concrete input.
mod Samples
mod Situations
mod Fixtures
mod Intake
mod Control
mod Rules
mod Tenant
mod Accounts
mod Delivery
