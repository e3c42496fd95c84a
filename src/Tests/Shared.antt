-- ===== src/Tests/Shared.antt =====
-- Two SimulatorDeployments of one namespace, with two and with five decode pods.
use mathlib.Core.Path.{◌∙◌, ap}
use llm_d_scheduler_sim_oper.Base.{String, pos, some, ◌≡◌, ◌≢◌, refl, sym, str_eq}
use llm_d_scheduler_sim_oper.Api.{StageConfig}
use llm_d_scheduler_sim_oper.Kube.Objects.{Kind, Key, Object}
use llm_d_scheduler_sim_oper.Kube.Calls.{err, not_found}
use llm_d_scheduler_sim_oper.Kube.Client.Memory.{
  Table, memory, stored, get-stored, get-stored_ne, empty,
}
use llm_d_scheduler_sim_oper.Kube.Client.Memory.Laws.{memory-IsLawful, memory-IsHealthy}
use llm_d_scheduler_sim_oper.Simulator.Defaults.{simulator_defaults, default_stage}
use llm_d_scheduler_sim_oper.Simulator.Reconcile.{reconcile_request, simulator_with_defaults}
use llm_d_scheduler_sim_oper.Simulator.Reconcile.Parts.{differs}
use llm_d_scheduler_sim_oper.Cluster.SharedStage.{HasDecode, IsFirst, second_simulator-IsFirst}
use llm_d_scheduler_sim_oper.Tests.Data.{
  stage_example, simulator_spec, simulator_object, simulator_example_key, simulator_state,
}

abbrev larger_stage : StageConfig
larger_stage = record stage_example { replicas = pos 5 }

abbrev larger_object : Object Kind.simulator_deployment
larger_object = record simulator_object {
  body = record (simulator_object.body) {
    spec = record simulator_spec { decode = some larger_stage };
  };
}

abbrev larger_key : Key
larger_key = record { kind = Kind.simulator_deployment; namespace = "ns"; name = "e" }

abbrev both_state : Table
both_state = stored larger_key larger_object simulator_state

nothing_else :
    (j : Key) → larger_key ≢ j → simulator_example_key ≢ j → memory.get both_state j ≡ err not_found
nothing_else j ne ne' =
    get-stored_ne larger_key j larger_object simulator_state ne
    ∙ get-stored_ne simulator_example_key j simulator_object empty ne'

names_differ : ◌≢◌ {A = String} "d" "e"
unfolding str_eq
names_differ = differs "d" "e" refl

pub first_HasDecode : HasDecode (simulator_with_defaults "ns" "d" simulator_spec) stage_example
unfolding simulator_defaults
first_HasDecode = record { there = refl; enabled = refl }

second_HasDecode :
    HasDecode
      (simulator_with_defaults "ns" "e" (record simulator_spec { decode = some larger_stage }))
      larger_stage
unfolding simulator_defaults
second_HasDecode = record { there = refl; enabled = refl }

second_simulator-IsFirst_example :
    IsFirst memory
      (simulator_with_defaults "ns" "d" simulator_spec)
      (default_stage (simulator_with_defaults "ns" "d" simulator_spec) stage_example)
      (default_stage
        (simulator_with_defaults "ns" "e" (record simulator_spec { decode = some larger_stage }))
        larger_stage).replicas
      (reconcile_request memory 7 "ns" "e" (reconcile_request memory 7 "ns" "d" both_state).1).1
second_simulator-IsFirst_example =
    second_simulator-IsFirst memory-IsHealthy memory-IsLawful 7 "ns" "d" "e" simulator_object
      larger_object stage_example larger_stage both_state names_differ
      (get-stored_ne larger_key simulator_example_key larger_object simulator_state
          (λ x. names_differ (ap (λ (k : Key). k.name) (sym x)))
        ∙ get-stored simulator_example_key simulator_object empty)
      (get-stored larger_key larger_object simulator_state) first_HasDecode second_HasDecode
      (nothing_else _ (λ x. cc) (λ x. cc)) (nothing_else _ (λ x. cc) (λ x. cc))
