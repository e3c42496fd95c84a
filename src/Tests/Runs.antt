-- ===== src/Tests/Runs.antt =====
-- The first reconcile of the SchedulerInstall of the examples.
use mathlib.Core.Path.{subst}
use mathlib.Core.Option.{some-injective}
use llm_d_scheduler_sim_oper.Base.{
  str_eq, true, false, is_empty_map, some, ◌≡◌, ◌≢◌, refl, if◌then◌else◌,
}
use llm_d_scheduler_sim_oper.Api.{
  SchedulerEppConfig, SchedulerEnvoyFilterConfig, SchedulerRoutingConfig, SchedulerInstall,
}
use llm_d_scheduler_sim_oper.Kube.Objects.{Kind, Key}
use llm_d_scheduler_sim_oper.Kube.Calls.{ok, err, not_found}
use llm_d_scheduler_sim_oper.Kube.Client.Memory.{memory, get-stored, get-stored_ne, empty}
use llm_d_scheduler_sim_oper.Kube.Client.Memory.Laws.{memory-IsLawful, memory-IsHealthy}
use llm_d_scheduler_sim_oper.Scheduler.Defaults.{
  set_defaults, labels_or, default_proxy_service, default_epp, text_or, default_routing,
  default_pool, default_envoy_filter, default_gateway,
}
use llm_d_scheduler_sim_oper.Scheduler.EppContent.{epp_key, epp_rbac_key}
use llm_d_scheduler_sim_oper.Scheduler.NetworkContent.{proxy_key}
use llm_d_scheduler_sim_oper.Scheduler.Reconcile.{reconcile, with_defaults, pool_named}
use llm_d_scheduler_sim_oper.Scheduler.Reconcile.Total.{IsServable, reconcile-succeeds}
use llm_d_scheduler_sim_oper.Scheduler.EnvoyContent.{envoy_filter_key}
use llm_d_scheduler_sim_oper.Scheduler.Reconcile.Poised.{EppReady, FilterReady}
use llm_d_scheduler_sim_oper.Scheduler.Reconcile.FilterTotal.{HasTarget}
use llm_d_scheduler_sim_oper.Scheduler.Reconcile.Traced.{Traced}
use llm_d_scheduler_sim_oper.Scheduler.Reconcile.Owned.{reconcile-Traced}
use llm_d_scheduler_sim_oper.Tests.Data.{
  epp_example, install_spec, install_key, install_object, install_state,
}

abbrev pub install : SchedulerInstall
install = with_defaults "ns" "i" install_spec

pub separate :
    (e : SchedulerEppConfig)
    → install.spec.epp ≡ some e
    → proxy_key install ≢ epp_key install e Kind.service
unfolding set_defaults default_proxy_service default_epp text_or str_eq
separate e there x = cc

target :
    (f : SchedulerEnvoyFilterConfig)
    → install.spec.envoy_filter ≡ some f
    → f.enabled ≡ true
    → HasTarget install f
unfolding set_defaults default_envoy_filter default_gateway default_epp labels_or
target f there on = record {
  epp = default_epp "sim" epp_example;
  there = refl;
  on = refl;
  selects =
      subst (λ (g : SchedulerEnvoyFilterConfig). is_empty_map g.workload_selector ≡ false)
        (some-injective _ _ there) refl;
  separate = separate _ refl;
}

pub servable : IsServable install
unfolding set_defaults default_routing default_pool default_envoy_filter text_or str_eq default_epp
servable = record {
  simulator = λ x. cc;
  near = refl;
  pool = λ p there.
      subst
        (λ (q : SchedulerRoutingConfig).
          (if str_eq q.backend_type "InferencePool" then pool_named q.inference_pool else true)
          ≡ true)
        (some-injective _ _ there) refl;
  target = target;
}

-- There is nothing in the cluster but the resource.
nothing_there : (j : Key) → install_key ≢ j → memory.get install_state j ≡ err not_found
nothing_there j ne = get-stored_ne install_key j install_object empty ne

pub epp_ready : EppReady memory install install_state
epp_ready e there on = record {
  deployment = λ p x. cc (nothing_there (epp_key install e Kind.deployment) (λ y. cc));
  binding = λ p x. cc (nothing_there (epp_rbac_key install e Kind.role_binding) (λ y. cc));
}

pub filter_ready : FilterReady memory install install_state
filter_ready = record {
  address = λ f e on there p x. cc (nothing_there (epp_key install e Kind.service) (λ y. cc));
  owner = λ f on p x. cc (nothing_there (envoy_filter_key install f) (λ y. cc));
}

pub run_ok : (reconcile memory 7 "ns" "i" install_state).0 ≡ ok tt
run_ok =
    reconcile-succeeds memory-IsHealthy memory-IsLawful 7 "ns" "i" install_object install_state
      (get-stored install_key install_object empty) servable epp_ready filter_ready

-- The ReferenceGrant, which the first reconcile creates.
abbrev grant_key : Key
grant_key = record {
  kind = Kind.reference_grant;
  namespace = "sim";
  name = "allow-scheduler-httproute";
}

reconcile-Traced_example :
    Traced memory install_key grant_key (reconcile memory 7 "ns" "i" install_state).1
reconcile-Traced_example =
    reconcile-Traced memory-IsLawful 7 "ns" "i" grant_key (λ x. cc) install_state
      (nothing_there grant_key (λ x. cc))
