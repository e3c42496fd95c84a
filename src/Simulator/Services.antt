-- ===== src/Simulator/Services.antt =====
-- Whether the Services that the SimulatorDeployment controller builds reach the pods of the
-- Deployments that it builds beside them.
use llm_d_scheduler_sim_oper.Base.{
  ℤ, int_eq, int_eq_iff, String, str_eq_iff, lookup, Labels, Bool, true, false, not, ◌||◌, some,
  List, [], ◌∷◌, ◌≡◌, ◌≢◌, refl, arith, if◌then◌else◌,
}
use llm_d_scheduler_sim_oper.Api.{
  StageConfig, EppConfig, GatewayInstanceConfig, SimulatorDeployment,
}
use llm_d_scheduler_sim_oper.Kube.Objects.{Kind, Body, ContainerPort, Container, ServicePort}
use llm_d_scheduler_sim_oper.Scheduler.Epp.Installed.{Selects}
use llm_d_scheduler_sim_oper.Simulator.Content.{
  legacy_selector, legacy_deployment, legacy_service, stage_deployment, stage_service,
}
use llm_d_scheduler_sim_oper.Simulator.EppContent.{
  epp_deployment, epp_service, simulator_epp_container,
}
use llm_d_scheduler_sim_oper.Simulator.GatewayContent.{
  gateway_deployment, gateway_service, build_gateway_container,
}

abbrev pub has_port : ℤ → List ContainerPort → Bool
has_port p [] = false
has_port p (c ∷ cs) = int_eq c.container_port p || has_port p cs

abbrev pub exposed : ℤ → List Container → Bool
exposed p [] = false
exposed p (c ∷ cs) = has_port p c.ports || exposed p cs

-- Each port of the list leads to a port that one of the containers exposes.
abbrev pub all_exposed : List ServicePort → List Container → Bool
all_exposed [] cs = true
all_exposed (p ∷ ps) cs = if exposed p.target_port cs then all_exposed ps cs else false

-- The Deployment's own selector and the Service's select the pods of the Deployment.
pub record Reaches (service : Body Kind.service) (deployment : Body Kind.deployment) : Type 0 where
  pub own : Labels
  pub selector : deployment.spec.selector ≡ some own
  pub owns : Selects own deployment.spec.template.labels
  pub selects : Selects service.spec.selector deployment.spec.template.labels

-- The Service also forwards to ports that the pods expose.
pub record Serves (service : Body Kind.service) (deployment : Body Kind.deployment) : Type 0 where
  pub reaches : Reaches service deployment
  pub exposes : all_exposed service.spec.ports deployment.spec.template.containers ≡ true

same_port : (p : ℤ) → int_eq p p ≡ true
same_port p = (int_eq_iff p p).1 refl

labels_apart : ◌≢◌ {A = String} "llm-d.ai/inferenceServing" "app.kubernetes.io/name"
labels_apart x = cc

legacy-Selects :
    (d : SimulatorDeployment)
    → Selects (legacy_selector d) (legacy_deployment d).spec.template.labels
unfolding legacy_selector legacy_deployment lookup
legacy-Selects d k v h = ground (
  arith,
  str_eq_iff "llm-d.ai/inferenceServing" k,
  str_eq_iff "app.kubernetes.io/name" k,
  labels_apart,
)

-- Each Service that the controller builds, beside the Deployment that it is built with.
abbrev pub AllServed : SimulatorDeployment → Type 0
AllServed d =
    Serves (legacy_service d) (legacy_deployment d)
    × ((stage : String) (c : StageConfig)
        → Serves (stage_service d stage c) (stage_deployment d stage c))
    × ((e : EppConfig) → Serves (epp_service d e) (epp_deployment d e))
    × ((name : String) (g : GatewayInstanceConfig) (is_istio : Bool)
        → Reaches (gateway_service d g is_istio) (gateway_deployment d name g is_istio)
          × (all_exposed (gateway_service d g is_istio).spec.ports
                (gateway_deployment d name g is_istio).spec.template.containers
              ≡ not is_istio))

-- The Services of the single Deployment, of a stage and of the EPP select the pods of the Deployment
-- built beside them, as the Deployment itself does, and forward to a port that the pods expose. The
-- Service of a gateway selects its pods too, but it forwards to a port that they expose only for the
-- standard gateway: it always forwards to port 80, and the Istio container exposes port 8080.
pub services-Serves : (d : SimulatorDeployment) → AllServed d
unfolding legacy_service legacy_deployment stage_service stage_deployment epp_service epp_deployment
    simulator_epp_container gateway_service gateway_deployment build_gateway_container int_eq
services-Serves d = (
  record {
    reaches = record {
      own = legacy_selector d;
      selector = refl;
      owns = legacy-Selects d;
      selects = legacy-Selects d;
    };
    exposes = rw (same_port d.spec.service.port) refl;
  },
  λ stage c. record {
    reaches = record { own = _; selector = refl; owns = λ k v h. h; selects = λ k v h. h };
    exposes = rw (same_port c.port) refl;
  },
  λ e. record {
    reaches = record { own = _; selector = refl; owns = λ k v h. h; selects = λ k v h. h };
    exposes = rw (same_port e.port) refl;
  },
  λ name g is_istio. (
    record { own = _; selector = refl; owns = λ k v h. h; selects = λ k v h. h },
    elim is_istio
        as (λ b.
          all_exposed (gateway_service d g b).spec.ports
            (gateway_deployment d name g b).spec.template.containers
          ≡ not b) [ true ↦ refl | false ↦ refl ],
  ),
)
