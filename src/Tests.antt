-- ===== src/Tests.antt =====
-- Tests and instances of the theorems.
mod Samples
mod Bus
mod Analysis
mod Access
mod Records
mod Agents
mod Intake
mod Fleet
mod Services
mod Delivery
mod Local
mod Monitors
