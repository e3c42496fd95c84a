-- ===== src/Api.antt =====
-- The custom resources of api/v1alpha1: the fields of each Go struct, in the source's order.
mod Common
mod Scheduler
mod Simulator
pub use Common.*
pub use Scheduler.*
pub use Simulator.*
