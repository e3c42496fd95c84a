-- ===== src/Api/Scheduler.antt =====
-- `SchedulerInstall`: the structs of api/v1alpha1/schedulerinstall_types.go.
use llm_d_scheduler_sim_oper.Base.{ℤ, String, Bool, Option, List, Labels}
use llm_d_scheduler_sim_oper.Api.Common.{ResourceRequirements, Condition, LoadBalancingConfig}

pub record ProxyServiceConfig : Type 0 where
  pub name : String
  pub port : ℤ
  pub target_port : ℤ
  pub selector : Labels

pub record SchedulerEppConfig : Type 0 where
  pub enabled : Bool
  pub name : String
  pub replicas : ℤ
  pub image : String
  pub port : ℤ
  pub verbosity : ℤ
  pub args : List String
  pub pool_name : String
  pub pool_namespace : String
  pub resources : ResourceRequirements
  pub config_profile : String

pub record SchedulerGatewayConfig : Type 0 where
  pub enabled : Bool
  pub name : String
  pub class_name : String
  pub listener_port : ℤ
  pub listener_protocol : String

pub record GatewayRef : Type 0 where
  pub name : String
  pub namespace : String

pub record SchedulerEnvoyFilterConfig : Type 0 where
  pub enabled : Bool
  pub name : String
  pub workload_selector : Labels

pub record InferencePoolRef : Type 0 where
  pub name : String
  pub namespace : String
  pub port : ℤ

pub record SchedulerRoutingConfig : Type 0 where
  pub enabled : Bool
  pub backend_type : String
  pub inference_pool : Option InferencePoolRef
  pub http_route_name : String
  pub parent_gateway : GatewayRef

pub record SchedulerInstallSpec : Type 0 where
  pub scheduler_namespace : String
  pub simulator_namespace : String
  pub proxy_service : ProxyServiceConfig
  pub epp : Option SchedulerEppConfig
  pub gateway : Option SchedulerGatewayConfig
  pub routing : Option SchedulerRoutingConfig
  pub destination_rule : Option LoadBalancingConfig
  pub envoy_filter : Option SchedulerEnvoyFilterConfig

pub record SchedulerInstallStatus : Type 0 where
  pub conditions : List Condition

-- The resource with its metadata's name and namespace.
pub record SchedulerInstall : Type 0 where
  pub name : String
  pub namespace : String
  pub spec : SchedulerInstallSpec
