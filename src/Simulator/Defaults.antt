-- ===== src/Simulator/Defaults.antt =====
-- `setDefaults` of controllers/simulatordeployment_controller.go, and the defaults that the functions
-- for the stages, the EPP and the gateways fill in before they build an object.
use llm_d_scheduler_sim_oper.Base.{ℤ, pos, Bool, if◌then◌else◌}
use llm_d_scheduler_sim_oper.Api.{
  EppConfig, StageConfig, GatewayInstanceConfig, SimulatorDeploymentSpec, SimulatorDeployment,
}
use llm_d_scheduler_sim_oper.Scheduler.Defaults.{text_or, int_or}

unfoldable pub simulator_defaults : SimulatorDeploymentSpec → SimulatorDeploymentSpec
simulator_defaults s = record s {
  replicas = int_or s.replicas (pos 2);
  image = text_or s.image "docker.io/library/llm-d-simulator:local";
  service = record {
    name = text_or s.service.name "gaie-inference-scheduling-proxy";
    port = int_or s.service.port (pos 8200);
    service_type = text_or s.service.service_type "ClusterIP";
  };
  log_verbosity = int_or s.log_verbosity (pos 5);
}

-- In `reconcileEPP`.
unfoldable pub default_epp_config : EppConfig → EppConfig
default_epp_config e = record e {
  replicas = int_or e.replicas (pos 1);
  image = text_or e.image "ghcr.io/llm-d/llm-d-inference-scheduler:v0.4.0";
  port = int_or e.port (pos 8100);
}

-- In `reconcileGatewayInstance`.
unfoldable pub default_instance : Bool → GatewayInstanceConfig → GatewayInstanceConfig
default_instance is_istio g = record g {
  replicas = int_or g.replicas (pos 1);
  image = text_or g.image (
      if is_istio
      then "docker.io/istio/proxyv2:1.28.1"
      else "cr.kgateway.dev/kgateway-dev/envoy-wrapper:v2.1.1");
  port = int_or g.port (pos 8080);
}

-- In `reconcileStage`, from the resource's own image.
unfoldable pub default_stage : SimulatorDeployment → StageConfig → StageConfig
default_stage d c = record c {
  replicas = int_or c.replicas (pos 2);
  image = text_or c.image (text_or d.spec.image "docker.io/library/llm-d-simulator:local");
  port = int_or c.port (pos 8200);
}

-- The verbosity of a stage: its own, or else the resource's.
unfoldable pub stage_verbosity : SimulatorDeployment → StageConfig → ℤ
stage_verbosity d c = int_or c.log_verbosity d.spec.log_verbosity
