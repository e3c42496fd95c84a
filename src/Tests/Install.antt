-- ===== src/Tests/Install.antt =====
-- The theorems on the SchedulerInstall controller, at the resources of the examples.
use Prim.Native.Nat.{max}
use mathlib.Core.Path.{subst}
use llm_d_scheduler_sim_oper.Base.{
  ◌++◌, ◌||◌, pos, str_eq, true, some, [], ◌∷◌, ◌≡◌, ◌≢◌, ◌↔◌, refl, sym, ◌∙◌, ap,
}
use llm_d_scheduler_sim_oper.Api.{SchedulerEppConfig, SchedulerRoutingConfig}
use llm_d_scheduler_sim_oper.Conditions.{update_conditions}
use llm_d_scheduler_sim_oper.Conditions.Ready.{
  find_ready, before_ready, after_ready, others, count_ready, update_conditions_sets,
}
use llm_d_scheduler_sim_oper.Kube.Objects.{Kind, Key, Object}
use llm_d_scheduler_sim_oper.Kube.Calls.{Result, ok}
use llm_d_scheduler_sim_oper.Kube.Client.Writes.{nil, cons, ok_injective}
use llm_d_scheduler_sim_oper.Kube.Client.Memory.{Table, memory, get-stored, empty}
use llm_d_scheduler_sim_oper.Kube.Client.Memory.Laws.{memory-IsLawful, memory-IsHealthy}
use llm_d_scheduler_sim_oper.Scheduler.Defaults.{
  set_defaults, default_epp, text_or, default_routing, default_envoy_filter, default_gateway,
  default_destination_rule,
}
use llm_d_scheduler_sim_oper.Scheduler.Defaults.Idempotent.{set_defaults_idempotent}
use llm_d_scheduler_sim_oper.Scheduler.EppContent.{epp_grpc_port, epp_container, empty_service}
use llm_d_scheduler_sim_oper.Scheduler.Epp.{mutate_epp_service}
use llm_d_scheduler_sim_oper.Scheduler.Epp.Ports.{
  target_port_named, container_port_named, epp_service_target,
}
use llm_d_scheduler_sim_oper.Scheduler.NetworkContent.{
  http_route_key, http_route_spec, reference_grant_key, reference_grant_spec,
}
use llm_d_scheduler_sim_oper.Scheduler.Traffic.{route_allowed, backend_namespace, route_allowed_lem}
use llm_d_scheduler_sim_oper.Scheduler.Reconcile.{
  reconcile_install, update_status, reconcile, with_defaults,
}
use llm_d_scheduler_sim_oper.Scheduler.Reconcile.Converged.{Converged}
use llm_d_scheduler_sim_oper.Scheduler.Reconcile.Frame.{Spares, reconcile-frame}
use llm_d_scheduler_sim_oper.Scheduler.Reconcile.Outcome.{
  Refused, reconcile-Converged, reconcile_cross_namespace,
}
use llm_d_scheduler_sim_oper.Scheduler.Reconcile.Total.{install_Returns, reconcile-succeeds}
use llm_d_scheduler_sim_oper.Scheduler.Reconcile.Failed.{reconcile_error_keeps_resource}
use llm_d_scheduler_sim_oper.Scheduler.Reconcile.Idle.{reconcile_install_idle}
use llm_d_scheduler_sim_oper.Tests.Runs.{
  install, separate, servable, epp_ready, filter_ready, run_ok,
}
use llm_d_scheduler_sim_oper.Tests.Data.{
  epp_example, install_spec, install_key, install_object, install_state, far_object, far_state,
  stale_ready, other_condition, fresh_ready,
}

reconcile-succeeds_example : (reconcile memory 7 "ns" "i" install_state).0 ≡ ok tt
reconcile-succeeds_example =
    reconcile-succeeds memory-IsHealthy memory-IsLawful 7 "ns" "i" install_object install_state
      (get-stored install_key install_object empty) servable epp_ready filter_ready

reconcile-Converged_example :
    Converged memory install 7 (reconcile memory 7 "ns" "i" install_state).1
reconcile-Converged_example =
    reconcile-Converged memory-IsLawful 7 "ns" "i" install_object install_state
      (get-stored install_key install_object empty) separate run_ok

abbrev bystander : Key
bystander = record { kind = Kind.simulator_deployment; namespace = "ns"; name = "d" }

install-Spares : Spares install bystander
unfolding set_defaults default_epp default_routing default_envoy_filter default_gateway
    default_destination_rule
install-Spares = record {
  epp =
      cons (λ x. cc)
        (cons (λ x. cc) (cons (λ x. cc) (cons (λ x. cc) (cons (λ x. cc) (cons (λ x. cc) nil)))));
  gateway = cons (λ x. cc) nil;
  proxy = λ x. cc;
  routing = cons (λ x. cc) (cons (λ x. cc) nil);
  destination_rule = cons (λ x. cc) nil;
  envoy_filter = cons (λ x. cc) nil;
  resource = λ x. cc;
}

reconcile-frame_example :
    memory.get (reconcile memory 7 "ns" "i" install_state).1 bystander
    ≡ memory.get install_state bystander
reconcile-frame_example =
    reconcile-frame memory-IsLawful 7 "ns" "i" install_state bystander λ o there.
      subst
        (λ (p : Object Kind.scheduler_install).
          Spares (with_defaults "ns" "i" p.body.spec) bystander)
        (ok_injective (sym (get-stored install_key install_object empty) ∙ there)) install-Spares

far_ne : "ns" ≢ (with_defaults "ns" "i" far_object.body.spec).spec.scheduler_namespace
unfolding set_defaults text_or str_eq
far_ne x = cc

far_epp : SchedulerEppConfig
unfolding default_epp
far_epp = default_epp "sim" epp_example

reconcile_cross_namespace_example : Refused (reconcile memory 7 "ns" "i") far_state
unfolding set_defaults far_epp default_epp
reconcile_cross_namespace_example =
    reconcile_cross_namespace memory-IsLawful 7 "ns" "i" far_object far_epp far_state
      (get-stored install_key far_object empty) (refl, refl) far_ne

refused : Refused (reconcile memory 7 "ns" "i") far_state
unfolding set_defaults far_epp default_epp
refused =
    reconcile_cross_namespace memory-IsLawful 7 "ns" "i" far_object far_epp far_state
      (get-stored install_key far_object empty) (refl, refl) far_ne

reconcile_error_keeps_resource_example :
    memory.get (reconcile memory 7 "ns" "i" far_state).1 install_key
    ≡ memory.get far_state install_key
reconcile_error_keeps_resource_example =
    reconcile_error_keeps_resource memory-IsHealthy memory-IsLawful 7 "ns" "i" far_state
      refused.error (ap (λ (r : Result (Unit {0}) × Table). r.0) refused.result)

set_defaults_idempotent_example :
    set_defaults "ns" (set_defaults "ns" install_spec) ≡ set_defaults "ns" install_spec
set_defaults_idempotent_example = set_defaults_idempotent "ns" install_spec

epp_service_target_example :
    (target_port_named "grpc" (mutate_epp_service install epp_example empty_service).spec.ports
      ≡ container_port_named "grpc" (epp_container epp_example).ports)
    ↔ (epp_grpc_port epp_example ≡ pos 9002)
epp_service_target_example = epp_service_target install epp_example empty_service

update_conditions_sets_example :
    (update_conditions fresh_ready (other_condition ∷ stale_ready ∷ [])
      ≡ before_ready (other_condition ∷ stale_ready ∷ [])
        ++ fresh_ready ∷ after_ready (other_condition ∷ stale_ready ∷ []))
    × (find_ready (update_conditions fresh_ready (other_condition ∷ stale_ready ∷ []))
        ≡ some fresh_ready)
    × (others (update_conditions fresh_ready (other_condition ∷ stale_ready ∷ []))
        ≡ others (other_condition ∷ stale_ready ∷ []))
    × (count_ready (update_conditions fresh_ready (other_condition ∷ stale_ready ∷ []))
        ≡ max 1 (count_ready (other_condition ∷ stale_ready ∷ [])))
update_conditions_sets_example =
    update_conditions_sets fresh_ready (other_condition ∷ stale_ready ∷ []) refl

install_ok : (reconcile_install memory 7 install install_state).0 ≡ ok tt
install_ok =
    (install_Returns memory-IsHealthy memory-IsLawful 7 install servable).at install_state (record {
      stored = record {
        object = install_object;
        stored = get-stored install_key install_object empty;
        meets = tt;
      };
      fits = epp_ready;
      ready = filter_ready;
    })

reconcile_install_idle_example :
    reconcile_install memory 8 install (reconcile_install memory 7 install install_state).1
    ≡ update_status memory 8 install true "Reconciled" "SchedulerInstall resources are ready"
        (reconcile_install memory 7 install install_state).1
reconcile_install_idle_example =
    reconcile_install_idle memory-IsHealthy memory-IsLawful 7 8 install install_state servable
      separate install_ok

abbrev pool_route : SchedulerRoutingConfig
pool_route = record {
  enabled = true;
  backend_type = "InferencePool";
  inference_pool = some (record { name = "pool"; namespace = "sim"; port = pos 0 });
  http_route_name = "r";
  parent_gateway = record { name = "g"; namespace = "ns" };
}

route_allowed_lem_example :
    route_allowed
      (http_route_key install pool_route)
      (http_route_spec install pool_route)
      (reference_grant_key install)
      (reference_grant_spec install)
    ≡ (str_eq (backend_namespace install pool_route) install.spec.scheduler_namespace
        || str_eq (backend_namespace install pool_route) install.spec.simulator_namespace)
route_allowed_lem_example = route_allowed_lem install pool_route
