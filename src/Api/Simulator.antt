-- ===== src/Api/Simulator.antt =====
-- `SimulatorDeployment`: the structs of api/v1alpha1/simulatordeployment_types.go.
use llm_d_scheduler_sim_oper.Base.{ℤ, String, Bool, Option, List}
use llm_d_scheduler_sim_oper.Api.Common.{ResourceRequirements, Condition, LoadBalancingConfig}

-- `corev1.ServiceType` is a string.
pub record ServiceConfig : Type 0 where
  pub name : String
  pub port : ℤ
  pub service_type : String

pub record GatewayConfig : Type 0 where
  pub enabled : Bool
  pub class_name : String
  pub route_name : String

pub record EppConfig : Type 0 where
  pub enabled : Bool
  pub replicas : ℤ
  pub image : String
  pub port : ℤ
  pub verbosity : ℤ
  pub args : List String
  pub resources : ResourceRequirements

pub record StageConfig : Type 0 where
  pub enabled : Bool
  pub replicas : ℤ
  pub image : String
  pub port : ℤ
  pub log_verbosity : ℤ
  pub resources : ResourceRequirements
  pub args : List String

pub record GatewayInstanceConfig : Type 0 where
  pub enabled : Bool
  pub replicas : ℤ
  pub image : String
  pub port : ℤ
  pub resources : ResourceRequirements

pub record InferenceGatewayConfig : Type 0 where
  pub enabled : Bool
  pub standard : Option GatewayInstanceConfig
  pub istio : Option GatewayInstanceConfig

pub record SimulatorDeploymentSpec : Type 0 where
  pub replicas : ℤ
  pub image : String
  pub log_verbosity : ℤ
  pub resources : ResourceRequirements
  pub service : ServiceConfig
  pub gateway : GatewayConfig
  pub load_balancing : Option LoadBalancingConfig
  pub epp : Option EppConfig
  pub prefill : Option StageConfig
  pub decode : Option StageConfig
  pub inference_gateway : Option InferenceGatewayConfig

pub record SimulatorDeploymentStatus : Type 0 where
  pub replicas : ℤ
  pub ready_replicas : ℤ
  pub endpoints : List String
  pub gateway_url : String
  pub conditions : List Condition

-- The resource with its metadata's name and namespace.
pub record SimulatorDeployment : Type 0 where
  pub name : String
  pub namespace : String
  pub spec : SimulatorDeploymentSpec
