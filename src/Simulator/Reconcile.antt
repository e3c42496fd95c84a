-- ===== src/Simulator/Reconcile.antt =====
-- `Reconcile` and `updateStatus` of controllers/simulatordeployment_controller.go. `now` is the time
-- that `metav1.Now` gives.
pub mod Frame
pub mod Blocks
pub mod Provisioned
pub mod Parts
pub mod Success
pub mod Reported
pub mod Restless
pub mod Total
pub mod Idle
pub mod Rules
pub mod Owned
pub mod Additive
use llm_d_scheduler_sim_oper.Base.{
  ℕ, ℤ, int_eq, String, Bool, true, false, not, ◌&&◌, Option, none, some, if◌then◌else◌,
}
use llm_d_scheduler_sim_oper.Api.{
  condition_true, condition_false, Condition, StageConfig, SimulatorDeploymentStatus,
  SimulatorDeploymentSpec, SimulatorDeployment,
}
use llm_d_scheduler_sim_oper.Conditions.{update_conditions}
use llm_d_scheduler_sim_oper.Kube.Objects.{Kind, Key, DeploymentStatus, Object}
use llm_d_scheduler_sim_oper.Kube.Calls.{
  not_found, failed, Result, ok, err, Call, return, fail, attempt, read, ◌>>=◌, ◌>>◌, on_enabled,
  when,
}
use llm_d_scheduler_sim_oper.Kube.Client.{Client}
use llm_d_scheduler_sim_oper.Simulator.Defaults.{simulator_defaults}
use llm_d_scheduler_sim_oper.Simulator.Content.{simulator_key, legacy_name, stage_name}
use llm_d_scheduler_sim_oper.Simulator.Steps.{
  reconcile_deployment, reconcile_service, reconcile_stage, reconcile_epp,
  reconcile_inference_gateways,
}

abbrev pub stage_enabled : Option StageConfig → Bool
stage_enabled none = false
stage_enabled (some c) = c.enabled

-- Neither stage is enabled: the single Deployment is used.
abbrev pub is_legacy : SimulatorDeployment → Bool
is_legacy d = not (stage_enabled d.spec.prefill) && not (stage_enabled d.spec.decode)

-- The Deployment whose status is reported.
abbrev pub reported_key : SimulatorDeployment → Key
reported_key d = record {
  kind = Kind.deployment;
  namespace = d.namespace;
  name = if stage_enabled d.spec.decode then stage_name "decode" else legacy_name d;
}

abbrev pub simulator_with_defaults : String → String → SimulatorDeploymentSpec → SimulatorDeployment
simulator_with_defaults namespace name spec = record {
  name = name;
  namespace = namespace;
  spec = simulator_defaults spec;
}

module _ (now : ℕ) where
  unfoldable pub deployment_condition : DeploymentStatus → Condition
  deployment_condition st =
      let is_ready = int_eq st.ready_replicas st.replicas in
      record {
        type_name = "Ready";
        status = if is_ready then condition_true else condition_false;
        reason = if is_ready then "DeploymentReady" else "DeploymentNotReady";
        message =
            if is_ready then "Simulator deployment is ready" else "Waiting for pods to be ready";
        last_transition_time = now;
      }

  unfoldable pub reported_status :
      DeploymentStatus → SimulatorDeploymentStatus → SimulatorDeploymentStatus
  unfolding deployment_condition
  reported_status st latest = record latest {
    replicas = st.replicas;
    ready_replicas = st.ready_replicas;
    conditions = update_conditions (deployment_condition st) latest.conditions;
  }

module _ (C : Client) (now : ℕ) where
  -- A Deployment that is not there yet is no error.
  report : SimulatorDeployment → Result (Object Kind.deployment) → Call C.State (Unit {0})
  report d (err not_found) = return tt
  report d (err (failed m)) = fail (failed m)
  report d (ok o) = do
    latest ← read (λ s. C.get s (simulator_key d))
    C.update_status (simulator_key d) (reported_status now o.status latest.status)

  unfoldable pub report_status : SimulatorDeployment → Call C.State (Unit {0})
  unfolding report
  report_status d = do found ← attempt (λ s. C.get s (reported_key d)); report d found

  unfoldable pub legacy_step : SimulatorDeployment → Call C.State (Unit {0})
  legacy_step d = do reconcile_deployment C d; reconcile_service C d

  -- The steps after the defaults but the last. The step for the DestinationRule does nothing.
  unfoldable pub provision : SimulatorDeployment → Call C.State (Unit {0})
  unfolding legacy_step
  provision d = do
    on_enabled d.spec.epp (λ e. e.enabled) (reconcile_epp C d)
    on_enabled d.spec.inference_gateway (λ g. g.enabled) (reconcile_inference_gateways C d)
    on_enabled d.spec.prefill (λ c. c.enabled) (reconcile_stage C d "prefill")
    on_enabled d.spec.decode (λ c. c.enabled) (reconcile_stage C d "decode")
    when (is_legacy d) (legacy_step d)
    on_enabled d.spec.load_balancing (λ b. b.enabled) (λ b. return tt)

  unfoldable pub reconcile_simulator : SimulatorDeployment → Call C.State (Unit {0})
  unfolding provision report_status
  reconcile_simulator d = do provision d; report_status d

  fetched_simulator :
      String → String → Result (Object Kind.simulator_deployment) → Call C.State (Unit {0})
  fetched_simulator namespace name (ok o) =
      reconcile_simulator (simulator_with_defaults namespace name o.body.spec)
  fetched_simulator namespace name (err not_found) = return tt
  fetched_simulator namespace name (err (failed m)) = fail (failed m)

  unfoldable pub reconcile_request : String → String → Call C.State (Unit {0})
  unfolding fetched_simulator
  reconcile_request namespace name = do
    found ← attempt (λ s.
        C.get s (record { kind = Kind.simulator_deployment; namespace = namespace; name = name }))
    fetched_simulator namespace name found
