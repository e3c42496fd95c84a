-- ===== src/Scheduler/Defaults/Filled.antt =====
-- What `setDefaults` of controllers/schedulerinstall_controller.go guarantees of the spec it leaves.
use llm_d_scheduler_sim_oper.Base.{Option, some, ◌≡◌, ◌≢◌}
use llm_d_scheduler_sim_oper.Api.{
  SchedulerEppConfig, SchedulerGatewayConfig, SchedulerEnvoyFilterConfig, LoadBalancingConfig,
  SchedulerRoutingConfig, SchedulerInstallSpec,
}
use llm_d_scheduler_sim_oper.Scheduler.Defaults.Parts.{
  IsFilledProxy, IsFilledEpp, IsFilledGateway, IsFilledRouting, IsFilledRule, IsFilledFilter,
}

-- Each part that is configured has its fields set.
pub record IsFilled (s : SchedulerInstallSpec) : Type 0 where
  pub scheduler_namespace : s.scheduler_namespace ≢ ""
  pub proxy_service : IsFilledProxy s.proxy_service
  pub epp : (e : SchedulerEppConfig) → s.epp ≡ some e → IsFilledEpp e
  pub gateway : (g : SchedulerGatewayConfig) → s.gateway ≡ some g → IsFilledGateway g
  pub routing :
      (r : SchedulerRoutingConfig) → s.routing ≡ some r → IsFilledRouting s.epp s.gateway r
  pub destination_rule : (d : LoadBalancingConfig) → s.destination_rule ≡ some d → IsFilledRule d
  pub envoy_filter :
      (f : SchedulerEnvoyFilterConfig) → s.envoy_filter ≡ some f → IsFilledFilter s.gateway f
