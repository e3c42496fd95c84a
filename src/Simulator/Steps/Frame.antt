-- ===== src/Simulator/Steps/Frame.antt =====
-- What each step of the SimulatorDeployment controller keeps: every object but its own.
use llm_d_scheduler_sim_oper.Base.{String, Bool, true, false, List, [], ◌∷◌, ◌≢◌}
use llm_d_scheduler_sim_oper.Api.{
  EppConfig, StageConfig, GatewayInstanceConfig, InferenceGatewayConfig, SimulatorDeployment,
}
use llm_d_scheduler_sim_oper.Kube.Objects.{Kind, Key, Object}
use llm_d_scheduler_sim_oper.Kube.Calls.{Result}
use llm_d_scheduler_sim_oper.Kube.Triples.{Keeps, Keeps-seq, Keeps-on_enabled}
use llm_d_scheduler_sim_oper.Kube.Client.{Client, IsLawful}
use llm_d_scheduler_sim_oper.Kube.Client.Writes.{
  Reads, Misses, nil, cons, enabled_keys, Misses-enabled,
}
use llm_d_scheduler_sim_oper.Simulator.Content.{
  simulator_object_key, legacy_key, legacy_service_key, stage_key,
}
use llm_d_scheduler_sim_oper.Simulator.EppContent.{simulator_epp_key}
use llm_d_scheduler_sim_oper.Simulator.Writes.Settled.{
  create_or-Keeps, create_if_missing-Keeps, scale-Keeps,
}
use llm_d_scheduler_sim_oper.Simulator.Steps.{
  reconcile_deployment, reconcile_service, write_stage, reconcile_stage, reconcile_epp_config,
  write_epp, reconcile_epp, write_gateway, reconcile_gateway_instance, reconcile_inference_gateways,
}

module _ (d : SimulatorDeployment) where
  abbrev pub stage_keys : String → List Key
  stage_keys stage = stage_key d Kind.deployment stage ∷ stage_key d Kind.service stage ∷ []

  abbrev pub simulator_epp_keys : List Key
  simulator_epp_keys =
      simulator_epp_key d Kind.config_map
      ∷ simulator_epp_key d Kind.deployment
      ∷ simulator_epp_key d Kind.service
      ∷ []

  abbrev pub gateway_keys : String → List Key
  gateway_keys name =
      simulator_object_key d Kind.config_map name
      ∷ simulator_object_key d Kind.deployment name
      ∷ simulator_object_key d Kind.service name
      ∷ []

module _ {C : Client} (L : IsLawful C) (d : SimulatorDeployment) {j : Key}
    {r : Result (Object j.kind)} where
  pub reconcile_deployment-Keeps : legacy_key d ≢ j → Keeps (Reads C j r) (reconcile_deployment C d)
  unfolding reconcile_deployment
  reconcile_deployment-Keeps ne = create_or-Keeps L _ _ _ _ ne (λ o. scale-Keeps L _ _ _ o ne)

  pub reconcile_service-Keeps :
      legacy_service_key d ≢ j → Keeps (Reads C j r) (reconcile_service C d)
  unfolding reconcile_service
  reconcile_service-Keeps ne = create_if_missing-Keeps L _ _ _ ne

  pub reconcile_stage-Keeps :
      (stage : String) (c : StageConfig)
      → Misses j (stage_keys d stage)
      → Keeps (Reads C j r) (reconcile_stage C d stage c)
  unfolding reconcile_stage write_stage
  reconcile_stage-Keeps stage c (cons dep (cons svc nil)) =
      Keeps-seq (create_or-Keeps L _ _ _ _ dep (λ o. scale-Keeps L _ _ _ o dep))
        (create_if_missing-Keeps L _ _ _ svc)

  pub reconcile_epp-Keeps :
      (e : EppConfig) → Misses j (simulator_epp_keys d) → Keeps (Reads C j r) (reconcile_epp C d e)
  unfolding reconcile_epp reconcile_epp_config write_epp
  reconcile_epp-Keeps e (cons cm (cons dep (cons svc nil))) =
      Keeps-seq (create_if_missing-Keeps L _ _ _ cm)
        (Keeps-seq (create_if_missing-Keeps L _ _ _ dep) (create_if_missing-Keeps L _ _ _ svc))

  pub reconcile_gateway_instance-Keeps :
      (name : String) (is_istio : Bool) (g : GatewayInstanceConfig)
      → Misses j (gateway_keys d name)
      → Keeps (Reads C j r) (reconcile_gateway_instance C d name is_istio g)
  unfolding reconcile_gateway_instance write_gateway
  reconcile_gateway_instance-Keeps name is_istio g (cons cm (cons dep (cons svc nil))) =
      Keeps-seq (create_if_missing-Keeps L _ _ _ cm)
        (Keeps-seq (create_if_missing-Keeps L _ _ _ dep) (create_if_missing-Keeps L _ _ _ svc))

  -- The objects of the gateways that are enabled.
  pub reconcile_inference_gateways-Keeps :
      (g : InferenceGatewayConfig)
      → Misses j (
          enabled_keys g.standard
            (λ x. x.enabled)
            (λ x. gateway_keys d "infra-sim-inference-gateway"))
      → Misses j (
          enabled_keys g.istio
            (λ x. x.enabled)
            (λ x. gateway_keys d "infra-sim-inference-gateway-istio"))
      → Keeps (Reads C j r) (reconcile_inference_gateways C d g)
  unfolding reconcile_inference_gateways
  reconcile_inference_gateways-Keeps g standard istio =
      Keeps-seq
        (Keeps-on_enabled g.standard _ _ λ x e t.
          reconcile_gateway_instance-Keeps _ false x (Misses-enabled g.standard _ _ standard x e t))
        (Keeps-on_enabled g.istio _ _ λ x e t.
          reconcile_gateway_instance-Keeps _ true x (Misses-enabled g.istio _ _ istio x e t))
