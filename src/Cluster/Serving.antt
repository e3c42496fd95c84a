-- ===== src/Cluster/Serving.antt =====
-- The proxy Service of the SchedulerInstall controller in front of the pods of the SimulatorDeployment
-- controller. Neither resource names the other: they meet by the namespace, the default labels and the
-- ports.
use llm_d_scheduler_sim_oper.Base.{String, Labels, Bool, [], ◌∷◌, ◌≡◌, ◌↔◌}
use llm_d_scheduler_sim_oper.Api.{
  StageConfig, EppConfig, GatewayInstanceConfig, SchedulerInstall, SimulatorDeployment,
}
use llm_d_scheduler_sim_oper.Kube.Objects.{Kind, Key, Body}
use llm_d_scheduler_sim_oper.Scheduler.Epp.Installed.{Selects}
use llm_d_scheduler_sim_oper.Scheduler.NetworkContent.{mutate_proxy_service}
use llm_d_scheduler_sim_oper.Simulator.Content.{
  simulator_object_key, stage_key, stage_deployment, legacy_key, legacy_deployment,
}
use llm_d_scheduler_sim_oper.Simulator.EppContent.{epp_deployment}
use llm_d_scheduler_sim_oper.Simulator.GatewayContent.{gateway_deployment}
use llm_d_scheduler_sim_oper.Simulator.Services.{all_exposed}

-- A Service selects the pods of its own namespace that have the labels of its selector. The pods of a
-- Deployment are in the Deployment's namespace.
abbrev pub SelectsPods : Key → Body Kind.service → Key → Body Kind.deployment → Type 0
SelectsPods at svc place deployment =
    (at.namespace ≡ place.namespace) × Selects svc.spec.selector deployment.spec.template.labels

-- Of the Deployments that a SimulatorDeployment has, the Service selects the pods of the decode stage
-- and of the single Deployment, if it is in their namespace, and those of no other.
pub record ServesDecode (at : Key) (svc : Body Kind.service) (d : SimulatorDeployment)
    : Type 0 where
  pub decode :
      (c : StageConfig)
      → SelectsPods at svc (stage_key d Kind.deployment "decode") (stage_deployment d "decode" c)
        ↔ (at.namespace ≡ d.namespace)
  pub single :
      SelectsPods at svc (legacy_key d) (legacy_deployment d) ↔ (at.namespace ≡ d.namespace)
  pub no_prefill :
      (c : StageConfig)
      → ¬ SelectsPods at svc
          (stage_key d Kind.deployment "prefill")
          (stage_deployment d "prefill" c)
  pub no_epp :
      (name : String) (e : EppConfig)
      → ¬ SelectsPods at svc (simulator_object_key d Kind.deployment name) (epp_deployment d e)
  pub no_gateway :
      (name : String) (g : GatewayInstanceConfig) (is_istio : Bool)
      → ¬ SelectsPods at svc
          (simulator_object_key d Kind.deployment name)
          (gateway_deployment d name g is_istio)

abbrev default_selector : Labels
default_selector = ("llm-d.ai/role", "decode") ∷ ("llm-d.ai/inferenceServing", "true") ∷ []

-- The proxy Service as the controller leaves it, whatever was there.
abbrev pub proxy_of : SchedulerInstall → Body Kind.service → Body Kind.service
proxy_of i b = mutate_proxy_service i b

-- The Service forwards to ports that the pods of the Deployment expose.
abbrev pub forwards_to : Body Kind.service → Body Kind.deployment → Bool
forwards_to svc deployment = all_exposed svc.spec.ports deployment.spec.template.containers
