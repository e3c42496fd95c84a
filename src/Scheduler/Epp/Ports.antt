-- ===== src/Scheduler/Epp/Ports.antt =====
-- Whether the EPP's Service reaches the port that the EPP serves on.
use mathlib.Core.Path.{sym, ap}
use mathlib.Core.Option.{some-injective}
use llm_d_scheduler_sim_oper.Base.{
  ℤ, pos, String, str_eq, Option, none, some, List, [], ◌∷◌, ◌≡◌, ◌↔◌, if◌then◌else◌,
}
use llm_d_scheduler_sim_oper.Api.{SchedulerEppConfig, SchedulerInstall}
use llm_d_scheduler_sim_oper.Kube.Objects.{Kind, Body, ContainerPort, ServicePort}
use llm_d_scheduler_sim_oper.Scheduler.EppContent.{epp_grpc_port, epp_container}
use llm_d_scheduler_sim_oper.Scheduler.Epp.{mutate_epp_service}

abbrev pub container_port_named : String → List ContainerPort → Option ℤ
container_port_named name [] = none
container_port_named name (p ∷ ps) =
    if str_eq p.name name then some p.container_port else container_port_named name ps

abbrev pub target_port_named : String → List ServicePort → Option ℤ
target_port_named name [] = none
target_port_named name (p ∷ ps) =
    if str_eq p.name name then some p.target_port else target_port_named name ps

-- The "grpc" port of the EPP's Service leads to the "grpc" port of the EPP's container exactly if the
-- EPP's port is 9002: the container listens on the configured port, but the Service always forwards
-- to 9002.
pub epp_service_target :
    (i : SchedulerInstall) (e : SchedulerEppConfig) (b : Body Kind.service)
    → (target_port_named "grpc" (mutate_epp_service i e b).spec.ports
        ≡ container_port_named "grpc" (epp_container e).ports)
      ↔ (epp_grpc_port e ≡ pos 9002)
unfolding mutate_epp_service epp_container str_eq
epp_service_target i e b = (λ x. sym (some-injective _ _ x), λ x. ap some (sym x))
