-- ===== src/Tests.antt =====
-- Concrete resources, and each theorem at one of them.
mod Data
mod Install
mod Simulation
mod Runs
mod Together
mod Manager
mod Shared
mod Routed
mod Restless
mod Flags
