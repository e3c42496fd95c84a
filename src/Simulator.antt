-- ===== src/Simulator.antt =====
-- The SimulatorDeployment controller: controllers/simulatordeployment_controller.go.
pub mod Defaults
pub mod Args
pub mod Content
pub mod Writes
pub mod EppContent
pub mod GatewayContent
pub mod Steps
pub mod Services
pub mod Reconcile
