-- ===== src/Tests/Restless.antt =====
-- A SimulatorDeployment that is reconciled while its status bears an earlier time.
use mathlib.Core.Path.{ap}
use mathlib.Core.Option.{some-injective}
use llm_d_scheduler_sim_oper.Base.{ℕ, arith, str_eq, some, [], ◌∷◌, ◌≡◌, ◌≢◌}
use llm_d_scheduler_sim_oper.Api.{Condition, SimulatorDeployment}
use llm_d_scheduler_sim_oper.Conditions.Ready.{find_ready}
use llm_d_scheduler_sim_oper.Kube.Objects.{Kind, Object}
use llm_d_scheduler_sim_oper.Kube.Calls.{ok}
use llm_d_scheduler_sim_oper.Kube.Client.Memory.{Table, memory, stored, get-stored, empty}
use llm_d_scheduler_sim_oper.Kube.Client.Memory.Laws.{memory-IsLawful, memory-IsHealthy}
use llm_d_scheduler_sim_oper.Simulator.Defaults.{simulator_defaults}
use llm_d_scheduler_sim_oper.Simulator.Reconcile.{
  reconcile_request, reported_key, simulator_with_defaults,
}
use llm_d_scheduler_sim_oper.Simulator.Reconcile.Total.{reconcile_request-succeeds}
use llm_d_scheduler_sim_oper.Simulator.Reconcile.Restless.{reconcile_request_changes_resource}
use llm_d_scheduler_sim_oper.Cluster.SharedStage.{decode-StageSettled}
use llm_d_scheduler_sim_oper.Tests.Shared.{first_HasDecode}
use llm_d_scheduler_sim_oper.Tests.Data.{
  stage_example, simulator_spec, simulator_object, simulator_example_key, stale_ready,
}

abbrev stale_object : Object Kind.simulator_deployment
stale_object = record simulator_object {
  status = record (simulator_object.status) { conditions = stale_ready ∷ [] };
}

abbrev stale_state : Table
stale_state = stored simulator_example_key stale_object empty

abbrev simulator : SimulatorDeployment
simulator = simulator_with_defaults "ns" "d" simulator_spec

stale_ok : (reconcile_request memory 7 "ns" "d" stale_state).0 ≡ ok tt
stale_ok = reconcile_request-succeeds memory-IsHealthy memory-IsLawful 7 "ns" "d" stale_state

-- The Deployment that the reconcile creates.
created :
    (p : Object Kind.deployment) × (memory.get
        (reconcile_request memory 7 "ns" "d" stale_state).1
        (reported_key simulator)
      ≡ ok p)
unfolding simulator_defaults
created =
    let settled =
      (decode-StageSettled memory-IsHealthy memory-IsLawful 7 "ns" "d" stale_object stage_example
        stale_state (get-stored simulator_example_key stale_object empty) first_HasDecode).0 in
    (settled.object, settled.stored)

earlier_time :
    (c : Condition)
    → find_ready stale_object.status.conditions ≡ some c
    → ◌≢◌ {A = ℕ} c.last_transition_time 7
unfolding str_eq
earlier_time c found time =
    let three : 3 ≡ c.last_transition_time =
      ap (λ (x : Condition). x.last_transition_time) (some-injective _ _ found) in
    ground arith

reconcile_request_changes_resource_example :
    memory.get (reconcile_request memory 7 "ns" "d" stale_state).1 simulator_example_key
    ≢ ok stale_object
reconcile_request_changes_resource_example =
    reconcile_request_changes_resource memory-IsLawful 7 "ns" "d" stale_object created.0 stale_state
      (get-stored simulator_example_key stale_object empty) earlier_time stale_ok created.1
