-- ===== src/Simulator/Reconcile/Reported.antt =====
-- The status that `updateStatus` of controllers/simulatordeployment_controller.go leaves.
use mathlib.Core.Path.{subst, ◌∙◌}
use llm_d_scheduler_sim_oper.Base.{String, ℕ, int_eq_iff, some, ◌≡◌, refl, sym, arith, ◌↔◌}
use llm_d_scheduler_sim_oper.Api.{
  condition_true, Condition, SimulatorDeployment, SimulatorDeploymentStatus,
}
use llm_d_scheduler_sim_oper.Conditions.Ready.{find_ready, update_conditions_sets}
use llm_d_scheduler_sim_oper.Kube.Objects.{Kind, DeploymentStatus, Object}
use llm_d_scheduler_sim_oper.Kube.Calls.{
  Result, ok, err, not_found, failed, return, fail, lift, ◌>>=◌,
}
use llm_d_scheduler_sim_oper.Kube.Triples.{Ensures, later}
use llm_d_scheduler_sim_oper.Kube.Client.{Client, IsLawful}
use llm_d_scheduler_sim_oper.Kube.Client.Writes.{ok_injective}
use llm_d_scheduler_sim_oper.Simulator.Content.{simulator_key}
use llm_d_scheduler_sim_oper.Simulator.Reconcile.{
  reported_key, deployment_condition, reported_status, report, report_status, provision,
  reconcile_simulator, simulator_with_defaults, fetched_simulator, reconcile_request,
}

-- A status that reports a Deployment's: its counts, and one condition "Ready" that is true exactly
-- if as many replicas are ready as there are.
pub record Reports (now : ℕ) (st : DeploymentStatus) (r : SimulatorDeploymentStatus) : Type 0 where
  pub replicas : r.replicas ≡ st.replicas
  pub ready_replicas : r.ready_replicas ≡ st.ready_replicas
  pub condition : Condition
  pub found : find_ready r.conditions ≡ some condition
  pub ready : (condition.status ≡ condition_true) ↔ (st.ready_replicas ≡ st.replicas)
  pub time : condition.last_transition_time ≡ now

status_ready :
    (now : ℕ) (st : DeploymentStatus)
    → ((deployment_condition now st).status ≡ condition_true) ↔ (st.ready_replicas ≡ st.replicas)
unfolding deployment_condition
status_ready now st = ground (arith, int_eq_iff st.ready_replicas st.replicas)

status_typed : (now : ℕ) (st : DeploymentStatus) → (deployment_condition now st).type_name ≡ "Ready"
unfolding deployment_condition
status_typed now st = refl

condition_time :
    (now : ℕ) (st : DeploymentStatus) → (deployment_condition now st).last_transition_time ≡ now
unfolding deployment_condition
condition_time now st = refl

reported_status-Reports :
    (now : ℕ) (st : DeploymentStatus) (latest : SimulatorDeploymentStatus)
    → Reports now st (reported_status now st latest)
unfolding reported_status
reported_status-Reports now st latest = record {
  replicas = refl;
  ready_replicas = refl;
  condition = deployment_condition now st;
  found =
      (update_conditions_sets (deployment_condition now st) latest.conditions
        (status_typed now st)).1;
  ready = status_ready now st;
  time = condition_time now st;
}

-- If the Deployment that counts is there, the stored status reports it.
pub record IsReported (C : Client) (now : ℕ) (d : SimulatorDeployment) (s : C.State) : Type 0 where
  pub at :
      (o : Object Kind.deployment)
      → C.get s (reported_key d) ≡ ok o
      → (r : Object Kind.simulator_deployment) × (C.get s (simulator_key d) ≡ ok r)
        × Reports now o.status r.status

module _ {C : Client} (L : IsLawful C) (now : ℕ) (d : SimulatorDeployment) where
  write_Reports :
      (o : Object Kind.deployment) (s : C.State)
      → C.get s (reported_key d) ≡ ok o
      → (report C now d (ok o) s).0 ≡ ok tt
      → IsReported C now d (report C now d (ok o) s).1
  unfolding report ◌>>=◌
  write_Reports o s there e = go (C.get s (simulator_key d)) refl e
    where
      go :
          (r : Result (Object Kind.simulator_deployment))
          → C.get s (simulator_key d) ≡ r
          → ((lift r >>= λ latest.
                C.update_status (simulator_key d) (reported_status now o.status latest.status))
              s).0
            ≡ ok tt
          → IsReported C now d
              ((lift r >>= λ latest.
                  C.update_status (simulator_key d) (reported_status now o.status latest.status))
                s).1
      go (ok r) stored e = record {
        at = λ p there'.
            let kept =
              L.get-update_status_ne (simulator_key d) (reported_key d)
                (reported_status now o.status r.status) s (λ x. cc) in
            let same : o ≡ p = ok_injective (sym there ∙ sym kept ∙ there') in
            (
              _,
              L.get-update_status (simulator_key d) _ r s stored e,
              subst
                  (λ (x : Object Kind.deployment).
                    Reports now x.status (reported_status now o.status r.status))
                  same (reported_status-Reports now o.status r.status),
            );
      }
      go (err x) stored e = cc

  report-IsReported :
      (found : Result (Object Kind.deployment)) (s : C.State)
      → C.get s (reported_key d) ≡ found
      → (report C now d found s).0 ≡ ok tt
      → IsReported C now d (report C now d found s).1
  unfolding report return fail
  report-IsReported (ok o) s there e = write_Reports o s there e
  report-IsReported (err not_found) s there e = record { at = λ o there'. cc }
  report-IsReported (err (failed m)) s there e = cc

  report_status-IsReported : Ensures (report_status C now d) (IsReported C now d)
  unfolding report_status ◌>>=◌
  report_status-IsReported = record {
    at = λ s {a} e. report-IsReported (C.get s (reported_key d)) s refl e;
  }

  report-Ensures : Ensures (reconcile_simulator C now d) (IsReported C now d)
  unfolding reconcile_simulator
  report-Ensures = later (provision C now d) report_status-IsReported

-- After a reconcile of a stored SimulatorDeployment that returns no error, if the decode stage's
-- Deployment is stored, or the single one where that stage is not enabled, then the status of the
-- resource has that Deployment's counts, and its condition "Ready" is true exactly if as many
-- replicas are ready as there are.
pub reconcile_request-IsReported :
    {C : Client} (L : IsLawful C) (now : ℕ) (namespace name : String)
    (o : Object Kind.simulator_deployment) (s : C.State)
    → C.get s (record { kind = Kind.simulator_deployment; namespace = namespace; name = name })
      ≡ ok o
    → (reconcile_request C now namespace name s).0 ≡ ok tt
    → IsReported C now
        (simulator_with_defaults namespace name o.body.spec)
        (reconcile_request C now namespace name s).1
unfolding reconcile_request fetched_simulator ◌>>=◌
reconcile_request-IsReported {C} L now namespace name o s there x =
    subst
      (λ r.
        (fetched_simulator C now namespace name r s).0 ≡ ok tt
        → IsReported C now (simulator_with_defaults namespace name o.body.spec)
            (fetched_simulator C now namespace name r s).1)
      (sym there) ((report-Ensures L now (simulator_with_defaults namespace name o.body.spec)).at s)
      x
