-- ===== src/Tests/Simulation.antt =====
-- The theorems on the SimulatorDeployment controller, at the resource of the examples.
use mathlib.Core.Path.{subst, ap}
use llm_d_scheduler_sim_oper.Base.{str_eq, false, ◌≡◌, ◌≢◌, refl, sym, ◌∙◌}
use llm_d_scheduler_sim_oper.Api.{SimulatorDeployment}
use llm_d_scheduler_sim_oper.Kube.Objects.{Kind, Key, Object}
use llm_d_scheduler_sim_oper.Kube.Calls.{ok}
use llm_d_scheduler_sim_oper.Kube.Client.Writes.{nil, cons, ok_injective}
use llm_d_scheduler_sim_oper.Kube.Client.Memory.{memory, get-stored, empty}
use llm_d_scheduler_sim_oper.Kube.Client.Memory.Laws.{memory-IsLawful, memory-IsHealthy}
use llm_d_scheduler_sim_oper.Simulator.Defaults.{simulator_defaults}
use llm_d_scheduler_sim_oper.Simulator.Content.{stage_name}
use llm_d_scheduler_sim_oper.Simulator.Reconcile.Parts.{differs}
use llm_d_scheduler_sim_oper.Simulator.Services.{AllServed, services-Serves}
use llm_d_scheduler_sim_oper.Simulator.Reconcile.{
  provision, reconcile_request, reconcile_simulator, simulator_with_defaults,
}
use llm_d_scheduler_sim_oper.Simulator.Reconcile.Frame.{Untouched, reconcile_request-frame}
use llm_d_scheduler_sim_oper.Simulator.Reconcile.Provisioned.{IsApart, Provisioned}
use llm_d_scheduler_sim_oper.Simulator.Reconcile.Success.{reconcile_request-Provisioned}
use llm_d_scheduler_sim_oper.Simulator.Reconcile.Reported.{IsReported, reconcile_request-IsReported}
use llm_d_scheduler_sim_oper.Simulator.Reconcile.Total.{reconcile_request-succeeds}
use llm_d_scheduler_sim_oper.Simulator.Reconcile.Idle.{provision_idle}
use llm_d_scheduler_sim_oper.Tests.Data.{
  simulator_spec, simulator_example_key, simulator_object, simulator_state,
}

abbrev simulator : SimulatorDeployment
simulator = simulator_with_defaults "ns" "d" simulator_spec

-- A stage is enabled, so that the single Deployment is not used.
simulator-IsApart : IsApart simulator
unfolding simulator_defaults
simulator-IsApart = record { deployment = λ n on fixed x. cc; service = λ n on fixed x. cc }

reconcile_request-Provisioned_example :
    (reconcile_request memory 7 "ns" "d" simulator_state
      ≡ reconcile_simulator memory 7 simulator simulator_state)
    × Provisioned memory simulator (reconcile_simulator memory 7 simulator)
reconcile_request-Provisioned_example =
    reconcile_request-Provisioned memory-IsLawful 7 "ns" "d" simulator_object simulator_state
      (get-stored simulator_example_key simulator_object empty) simulator-IsApart

-- The Deployment that would be used without stages.
abbrev single : Key
single = record { kind = Kind.deployment; namespace = "ns"; name = "ms-sim-d-decode" }

named_ne : (k : Key) → str_eq k.name "ms-sim-d-decode" ≡ false → k ≢ single
named_ne k e x = differs k.name "ms-sim-d-decode" e (ap (λ (y : Key). y.name) x)

simulator-Untouched : Untouched simulator single
unfolding simulator_defaults stage_name str_eq
simulator-Untouched = record {
  epp = cons (λ x. cc) (cons (named_ne _ refl) (cons (λ x. cc) nil));
  gateways =
      cons (λ x. cc)
        (cons (named_ne _ refl)
          (cons (λ x. cc) (cons (λ x. cc) (cons (named_ne _ refl) (cons (λ x. cc) nil)))));
  prefill = nil;
  decode = cons (named_ne _ refl) (cons (λ x. cc) nil);
  legacy = nil;
  resource = λ x. cc;
}

reconcile_request-frame_example :
    memory.get (reconcile_request memory 7 "ns" "d" simulator_state).1 single
    ≡ memory.get simulator_state single
reconcile_request-frame_example =
    reconcile_request-frame memory-IsLawful 7 "ns" "d" simulator_state single λ o there.
      subst
        (λ (p : Object Kind.simulator_deployment).
          Untouched (simulator_with_defaults "ns" "d" p.body.spec) single)
        (ok_injective (sym (get-stored simulator_example_key simulator_object empty) ∙ there))
        simulator-Untouched

run_ok : (reconcile_request memory 7 "ns" "d" simulator_state).0 ≡ ok tt
run_ok = reconcile_request-succeeds memory-IsHealthy memory-IsLawful 7 "ns" "d" simulator_state

reconcile_request-succeeds_example : (reconcile_request memory 7 "ns" "d" simulator_state).0 ≡ ok tt
reconcile_request-succeeds_example =
    reconcile_request-succeeds memory-IsHealthy memory-IsLawful 7 "ns" "d" simulator_state

reconcile_request-IsReported_example :
    IsReported memory 7 simulator (reconcile_request memory 7 "ns" "d" simulator_state).1
reconcile_request-IsReported_example =
    reconcile_request-IsReported memory-IsLawful 7 "ns" "d" simulator_object simulator_state
      (get-stored simulator_example_key simulator_object empty) run_ok

services-Serves_example : AllServed simulator
services-Serves_example = services-Serves simulator

simulator_ok : (reconcile_simulator memory 7 simulator simulator_state).0 ≡ ok tt
simulator_ok =
    subst (λ r. r.0 ≡ ok tt)
      (reconcile_request-Provisioned memory-IsLawful 7 "ns" "d" simulator_object simulator_state
        (get-stored simulator_example_key simulator_object empty) simulator-IsApart).0
      run_ok

provision_idle_example :
    provision memory 8 simulator (reconcile_simulator memory 7 simulator simulator_state).1
    ≡ (ok tt, (reconcile_simulator memory 7 simulator simulator_state).1)
provision_idle_example =
    provision_idle memory-IsHealthy memory-IsLawful 7 8 simulator simulator_state simulator-IsApart
      simulator_ok
