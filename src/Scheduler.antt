-- ===== src/Scheduler.antt =====
-- The `SchedulerInstall` controller, controllers/schedulerinstall_controller.go.
pub mod Defaults
pub mod Plugins
pub mod EppContent
pub mod Epp
pub mod NetworkContent
pub mod Network
pub mod EnvoyContent
pub mod Traffic
pub mod Reconcile
pub mod References
pub mod Connected
