-- ===== src/Scheduler/Reconcile.antt =====
-- `Reconcile` of controllers/schedulerinstall_controller.go, with the EnvoyFilter and the status.
-- `now` is the time that `metav1.Now` gives.
pub mod Frame
pub mod Steps
pub mod Converged
pub mod Blocks
pub mod FilterBlock
pub mod Success
pub mod Outcome
pub mod Poised
pub mod FilterTotal
pub mod EppTotal
pub mod Total
pub mod FilterIdle
pub mod Idle
pub mod Traced
pub mod Owned
pub mod Restless
pub mod Failed
use llm_d_scheduler_sim_oper.Base.{
  ℕ, String, str_eq, Option, none, some, Bool, true, false, is_empty_map, if◌then◌else◌,
}
use llm_d_scheduler_sim_oper.Api.{
  condition_true, condition_false, Condition, SchedulerEppConfig, SchedulerEnvoyFilterConfig,
  SchedulerRoutingConfig, InferencePoolRef, SchedulerInstallSpec, SchedulerInstall,
}
use llm_d_scheduler_sim_oper.Conditions.{update_conditions}
use llm_d_scheduler_sim_oper.Kube.Objects.{Kind, Body, Object}
use llm_d_scheduler_sim_oper.Kube.Calls.{
  not_found, failed, Result, ok, err, Call, return, fail, attempt, read, ◌>>=◌, ◌>>◌, branch,
  on_enabled, when, ignore_not_found,
}
use llm_d_scheduler_sim_oper.Kube.Client.{Client, gvk_supported, empty_meta}
use llm_d_scheduler_sim_oper.Scheduler.Defaults.{set_defaults}
use llm_d_scheduler_sim_oper.Scheduler.EppContent.{owner_key, epp_key}
use llm_d_scheduler_sim_oper.Scheduler.Epp.{reconcile_scheduler_epp}
use llm_d_scheduler_sim_oper.Scheduler.NetworkContent.{add_owner_labels}
use llm_d_scheduler_sim_oper.Scheduler.Network.{
  reconcile_proxy_service, reconcile_gateway, reconcile_http_route, reconcile_reference_grant,
  reconcile_destination_rule,
}
use llm_d_scheduler_sim_oper.Scheduler.EnvoyContent.{
  envoy_filter_gvk, envoy_filter_key, envoy_filter_spec,
}

abbrev pub pool_named : Option InferencePoolRef → Bool
pool_named none = false
pool_named (some p) = if str_eq p.name "" then false else true

module _ (C : Client) (i : SchedulerInstall) where
  unfoldable pub mutate_envoy_filter :
      SchedulerEppConfig
      → SchedulerEnvoyFilterConfig
      → String
      → Body Kind.envoy_filter
      → Result (Body Kind.envoy_filter)
  mutate_envoy_filter e f epp_ip b =
      elim (C.set_controller_reference (owner_key i) (envoy_filter_key i f)
        (add_owner_labels i b.meta)) [
          | ok m ↦ ok (record { meta = m; spec = some (envoy_filter_spec f epp_ip e.port) })
          | err x ↦ err x
        ]

  write_envoy_filter :
      SchedulerEppConfig → SchedulerEnvoyFilterConfig → String → Call C.State (Unit {0})
  write_envoy_filter e f epp_ip =
      branch (str_eq epp_ip "") (fail (failed "EPP service has no ClusterIP")) (
        C.create_or_update (envoy_filter_key i f) (record { meta = empty_meta; spec = none })
          (mutate_envoy_filter e f epp_ip))

  unfoldable pub reconcile_envoy_filter :
      SchedulerEppConfig → SchedulerEnvoyFilterConfig → Call C.State (Unit {0})
  unfolding write_envoy_filter
  reconcile_envoy_filter e f = when (gvk_supported C envoy_filter_gvk) do
    svc ← read (λ s. C.get s (epp_key i e Kind.service))
    write_envoy_filter e f (svc.status.cluster_ip)

  unfoldable pub delete_envoy_filter : SchedulerEnvoyFilterConfig → Call C.State (Unit {0})
  delete_envoy_filter f =
      when (gvk_supported C envoy_filter_gvk)
        (branch (str_eq f.name "") (return tt) (ignore_not_found (C.delete (envoy_filter_key i f))))

  filter_with_epp : SchedulerEnvoyFilterConfig → Option SchedulerEppConfig → Call C.State (Unit {0})
  filter_with_epp f none = fail (failed "envoyFilter requires epp.enabled=true")
  filter_with_epp f (some e) =
      branch e.enabled
        (branch (is_empty_map f.workload_selector)
          (fail (
            failed
              "envoyFilter requires workloadSelector (or gateway configured for default selector)"))
          (reconcile_envoy_filter e f))
        (fail (failed "envoyFilter requires epp.enabled=true"))

  -- The last block of `Reconcile`: an enabled filter is written, and a disabled one deleted.
  unfoldable pub filter_step : Option SchedulerEnvoyFilterConfig → Call C.State (Unit {0})
  unfolding filter_with_epp
  filter_step none = return tt
  filter_step (some f) = branch f.enabled (filter_with_epp f i.spec.epp) (delete_envoy_filter f)

  unfoldable pub routing_step : SchedulerRoutingConfig → Call C.State (Unit {0})
  routing_step r =
      branch (if str_eq r.backend_type "InferencePool" then pool_named r.inference_pool else true)
        (do reconcile_reference_grant C i; reconcile_http_route C i r)
        (fail (failed "routing.backendType=InferencePool requires routing.inferencePool.name"))

-- The resource as `setDefaults` leaves it.
abbrev pub with_defaults : String → String → SchedulerInstallSpec → SchedulerInstall
with_defaults namespace name spec = record {
  name = name;
  namespace = namespace;
  spec = set_defaults namespace spec;
}

module _ (C : Client) (now : ℕ) where
  unfoldable pub ready_condition : Bool → String → String → Condition
  ready_condition ready reason message = record {
    type_name = "Ready";
    status = if ready then condition_true else condition_false;
    reason = reason;
    message = message;
    last_transition_time = now;
  }

  -- The resource is read again, since the one at hand has its defaults filled in.
  unfoldable pub update_status : SchedulerInstall → Bool → String → String → Call C.State (Unit {0})
  unfolding ready_condition
  update_status i ready reason message = do
    latest ← read (λ s. C.get s (owner_key i))
    C.update_status (owner_key i) (record {
      conditions =
          update_conditions (ready_condition ready reason message) latest.status.conditions;
    })

  -- The steps after the checks on the spec. `i` has its defaults set.
  unfoldable pub reconcile_install : SchedulerInstall → Call C.State (Unit {0})
  reconcile_install i = do
    on_enabled i.spec.epp (λ e. e.enabled) (reconcile_scheduler_epp C i)
    on_enabled i.spec.gateway (λ g. g.enabled) (reconcile_gateway C i)
    reconcile_proxy_service C i
    on_enabled i.spec.routing (λ r. r.enabled) (routing_step C i)
    on_enabled i.spec.destination_rule (λ d. d.enabled) (reconcile_destination_rule C i)
    filter_step C i i.spec.envoy_filter
    update_status i true "Reconciled" "SchedulerInstall resources are ready"

  checked : SchedulerInstall → Call C.State (Unit {0})
  checked i =
      branch (str_eq i.spec.simulator_namespace "")
        (fail (failed "spec.simulatorNamespace is required")) (reconcile_install i)

  fetched : String → String → Result (Object Kind.scheduler_install) → Call C.State (Unit {0})
  fetched namespace name (ok o) = checked (with_defaults namespace name o.body.spec)
  fetched namespace name (err not_found) = return tt
  fetched namespace name (err e) = fail e

  unfoldable pub reconcile : String → String → Call C.State (Unit {0})
  unfolding checked fetched
  reconcile namespace name = do
    found ← attempt (λ s.
        C.get s (record { kind = Kind.scheduler_install; namespace = namespace; name = name }))
    fetched namespace name found
