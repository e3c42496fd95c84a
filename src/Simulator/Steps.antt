-- ===== src/Simulator/Steps.antt =====
-- `reconcileDeployment`, `reconcileService`, `reconcileStage`, `reconcileEPP` and
-- `reconcileInferenceGateways` of controllers/simulatordeployment_controller.go, and the functions
-- that they call. `d` is the resource with its defaults set.
pub mod Frame
pub mod Outcome
use llm_d_scheduler_sim_oper.Base.{String, Bool, true, false, Option, none, some}
use llm_d_scheduler_sim_oper.Api.{
  EppConfig, StageConfig, GatewayInstanceConfig, InferenceGatewayConfig, SimulatorDeployment,
}
use llm_d_scheduler_sim_oper.Kube.Objects.{Kind}
use llm_d_scheduler_sim_oper.Kube.Calls.{Call, return, ◌>>=◌, ◌>>◌, on_enabled}
use llm_d_scheduler_sim_oper.Kube.Client.{Client}
use llm_d_scheduler_sim_oper.Simulator.Defaults.{
  default_epp_config, default_instance, default_stage,
}
use llm_d_scheduler_sim_oper.Simulator.Content.{
  simulator_key, simulator_object_key, legacy_key, legacy_service_key, legacy_deployment,
  legacy_service, legacy_name, stage_name, stage_key, stage_deployment, stage_service,
}
use llm_d_scheduler_sim_oper.Simulator.EppContent.{
  simulator_epp_key, epp_config_map, epp_deployment, epp_service,
}
use llm_d_scheduler_sim_oper.Simulator.GatewayContent.{
  gateway_config_map, gateway_deployment, gateway_service,
}
use llm_d_scheduler_sim_oper.Simulator.Writes.{create_or, create_if_missing, scale}

module _ (C : Client) (d : SimulatorDeployment) where
  unfoldable pub reconcile_deployment : Call C.State (Unit {0})
  reconcile_deployment =
      create_or C (simulator_key d) (legacy_key d) (legacy_deployment d)
        (scale C d.namespace (legacy_name d) d.spec.replicas)

  unfoldable pub reconcile_service : Call C.State (Unit {0})
  reconcile_service =
      create_if_missing C (simulator_key d) (legacy_service_key d) (legacy_service d)

  -- The steps after the defaults of the stage.
  unfoldable pub write_stage : String → StageConfig → Call C.State (Unit {0})
  write_stage stage c = do
    create_or C (simulator_key d) (stage_key d Kind.deployment stage) (stage_deployment d stage c)
        (scale C d.namespace (stage_name stage) c.replicas)
    create_if_missing C (simulator_key d) (stage_key d Kind.service stage) (stage_service d stage c)

  unfoldable pub reconcile_stage : String → StageConfig → Call C.State (Unit {0})
  unfolding write_stage
  reconcile_stage stage c = write_stage stage (default_stage d c)

  unfoldable pub reconcile_epp_config : Call C.State (Unit {0})
  reconcile_epp_config =
      create_if_missing C (simulator_key d) (simulator_epp_key d Kind.config_map) (epp_config_map d)

  unfoldable pub write_epp : EppConfig → Call C.State (Unit {0})
  write_epp e = do
    create_if_missing C (simulator_key d) (simulator_epp_key d Kind.deployment) (epp_deployment d e)
    create_if_missing C (simulator_key d) (simulator_epp_key d Kind.service) (epp_service d e)

  unfoldable pub reconcile_epp : EppConfig → Call C.State (Unit {0})
  unfolding write_epp
  reconcile_epp e = do reconcile_epp_config; write_epp (default_epp_config e)

  unfoldable pub write_gateway : String → Bool → GatewayInstanceConfig → Call C.State (Unit {0})
  write_gateway name is_istio g = do
    create_if_missing C (simulator_key d) (simulator_object_key d Kind.config_map name)
        (gateway_config_map d)
    create_if_missing C (simulator_key d) (simulator_object_key d Kind.deployment name)
        (gateway_deployment d name g is_istio)
    create_if_missing C (simulator_key d) (simulator_object_key d Kind.service name)
        (gateway_service d g is_istio)

  unfoldable pub reconcile_gateway_instance :
      String → Bool → GatewayInstanceConfig → Call C.State (Unit {0})
  unfolding write_gateway
  reconcile_gateway_instance name is_istio g =
      write_gateway name is_istio (default_instance is_istio g)

  unfoldable pub reconcile_inference_gateways : InferenceGatewayConfig → Call C.State (Unit {0})
  reconcile_inference_gateways g = do
    on_enabled g.standard (λ x. x.enabled)
        (reconcile_gateway_instance "infra-sim-inference-gateway" false)
    on_enabled g.istio (λ x. x.enabled)
        (reconcile_gateway_instance "infra-sim-inference-gateway-istio" true)
