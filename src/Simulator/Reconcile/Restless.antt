-- ===== src/Simulator/Reconcile/Restless.antt =====
-- What a successful reconcile of a `SimulatorDeployment` does to the resource itself.
use mathlib.Core.Path.{ap}
use llm_d_scheduler_sim_oper.Base.{ℕ, String, some, ◌≡◌, ◌≢◌, sym, ◌∙◌}
use llm_d_scheduler_sim_oper.Api.{Condition}
use llm_d_scheduler_sim_oper.Conditions.Ready.{find_ready}
use llm_d_scheduler_sim_oper.Kube.Objects.{Kind, Object}
use llm_d_scheduler_sim_oper.Kube.Calls.{ok}
use llm_d_scheduler_sim_oper.Kube.Client.{Client, IsLawful}
use llm_d_scheduler_sim_oper.Kube.Client.Writes.{ok_injective}
use llm_d_scheduler_sim_oper.Simulator.Reconcile.{
  reconcile_request, reported_key, simulator_with_defaults,
}
use llm_d_scheduler_sim_oper.Simulator.Reconcile.Reported.{reconcile_request-IsReported}

-- A reconcile of a SimulatorDeployment that returns no error, with the Deployment that counts stored
-- afterwards, changes the stored resource, even if the counts that it reports are those that it
-- finds, unless the "Ready" condition that it finds bears the time of this very reconcile.
pub reconcile_request_changes_resource :
    {C : Client} (L : IsLawful C) (now : ℕ) (namespace name : String)
    (o : Object Kind.simulator_deployment) (p : Object Kind.deployment) (s : C.State)
    → C.get s (record { kind = Kind.simulator_deployment; namespace = namespace; name = name })
      ≡ ok o
    → ((c : Condition) → find_ready o.status.conditions ≡ some c → c.last_transition_time ≢ now)
    → (reconcile_request C now namespace name s).0 ≡ ok tt
    → C.get
        (reconcile_request C now namespace name s).1
        (reported_key (simulator_with_defaults namespace name o.body.spec))
      ≡ ok p
    → C.get
        (reconcile_request C now namespace name s).1
        (record { kind = Kind.simulator_deployment; namespace = namespace; name = name })
      ≢ ok o
reconcile_request_changes_resource {C} L now namespace name o p s there earlier done counted same =
    let (r, stored, reports) =
      (reconcile_request-IsReported L now namespace name o s there done).at p counted in
    earlier reports.condition
      (ap (λ (q : Object Kind.simulator_deployment). find_ready q.status.conditions)
          (ok_injective (sym same ∙ stored))
        ∙ reports.found)
      reports.time
