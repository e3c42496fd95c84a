-- ===== src/Tests/Routed.antt =====
-- A SchedulerInstall whose route leads to the proxy Service, with the defaults of its references.
use mathlib.Core.Path.{subst, ap}
use mathlib.Core.Option.{some-injective}
use llm_d_scheduler_sim_oper.Base.{
  ℕ, arith, pos, true, str_eq, none, some, [], ◌∷◌, ◌≡◌, ◌≢◌, refl, if◌then◌else◌,
}
use llm_d_scheduler_sim_oper.Api.{
  SchedulerEppConfig, SchedulerGatewayConfig, SchedulerRoutingConfig, SchedulerInstallSpec,
  SchedulerInstall, Condition, condition_true,
}
use llm_d_scheduler_sim_oper.Conditions.Ready.{find_ready}
use llm_d_scheduler_sim_oper.Kube.Objects.{Kind, Key, Object}
use llm_d_scheduler_sim_oper.Kube.Calls.{ok, err, not_found}
use llm_d_scheduler_sim_oper.Kube.Client.{gvk_supported}
use llm_d_scheduler_sim_oper.Kube.Client.Memory.{
  Table, memory, stored, get-stored, get-stored_ne, empty,
}
use llm_d_scheduler_sim_oper.Kube.Client.Memory.Laws.{memory-IsLawful, memory-IsHealthy}
use llm_d_scheduler_sim_oper.Scheduler.Defaults.{
  set_defaults, default_proxy_service, default_epp, default_gateway, default_routing, text_or,
}
use llm_d_scheduler_sim_oper.Scheduler.EppContent.{epp_key, epp_rbac_key}
use llm_d_scheduler_sim_oper.Scheduler.NetworkContent.{proxy_key}
use llm_d_scheduler_sim_oper.Scheduler.References.{Connected}
use llm_d_scheduler_sim_oper.Scheduler.Connected.{AsksForRoute, routing_of, reconcile-Connected}
use llm_d_scheduler_sim_oper.Scheduler.Reconcile.{reconcile, with_defaults, pool_named}
use llm_d_scheduler_sim_oper.Scheduler.Reconcile.Total.{IsServable, reconcile-succeeds}
use llm_d_scheduler_sim_oper.Scheduler.Reconcile.Poised.{EppReady, FilterReady}
use llm_d_scheduler_sim_oper.Scheduler.Reconcile.Restless.{reconcile_changes_resource}
use llm_d_scheduler_sim_oper.Tests.Data.{install_spec, install_key, install_object}

abbrev asked_gateway : SchedulerGatewayConfig
asked_gateway = record {
  enabled = true;
  name = "";
  class_name = "";
  listener_port = pos 0;
  listener_protocol = "";
}

abbrev asked_routing : SchedulerRoutingConfig
asked_routing = record {
  enabled = true;
  backend_type = "";
  inference_pool = none;
  http_route_name = "";
  parent_gateway = record { name = ""; namespace = "" };
}

abbrev routed_spec : SchedulerInstallSpec
routed_spec = record install_spec { routing = some asked_routing; envoy_filter = none }

abbrev routed_object : Object Kind.scheduler_install
routed_object = record install_object { body = record (install_object.body) { spec = routed_spec } }

abbrev routed_state : Table
routed_state = stored install_key routed_object empty

abbrev routed : SchedulerInstall
routed = with_defaults "ns" "i" routed_spec

separate_services :
    (e : SchedulerEppConfig)
    → routed.spec.epp ≡ some e
    → proxy_key routed ≢ epp_key routed e Kind.service
unfolding set_defaults default_proxy_service default_epp text_or str_eq
separate_services e there x = cc

can_serve : IsServable routed
unfolding set_defaults default_routing text_or str_eq
can_serve = record {
  simulator = λ x. cc;
  near = refl;
  pool = λ p there.
      subst
        (λ (q : SchedulerRoutingConfig).
          (if str_eq q.backend_type "InferencePool" then pool_named q.inference_pool else true)
          ≡ true)
        (some-injective _ _ there) refl;
  target = λ f there on. cc;
}

only_install :
    (o : Object Kind.scheduler_install) (j : Key)
    → install_key ≢ j
    → memory.get (stored install_key o empty) j ≡ err not_found
only_install o j ne = get-stored_ne install_key j o empty ne

epp_fits : (o : Object Kind.scheduler_install) → EppReady memory routed (stored install_key o empty)
epp_fits o e there on = record {
  deployment = λ p x. cc (only_install o (epp_key routed e Kind.deployment) (λ y. cc));
  binding = λ p x. cc (only_install o (epp_rbac_key routed e Kind.role_binding) (λ y. cc));
}

nothing_to_filter : FilterReady memory routed routed_state
unfolding set_defaults
nothing_to_filter = record {
  address = λ f e on there p x. cc (on.0);
  owner = λ f on p x. cc (on.0);
}

asks : AsksForRoute routed_spec asked_gateway asked_routing
asks = record {
  gateway = refl;
  gateway_enabled = refl;
  routing = refl;
  routing_enabled = refl;
  parent = refl;
  backend_type = refl;
}

routed_ok : (reconcile memory 7 "ns" "i" routed_state).0 ≡ ok tt
routed_ok =
    reconcile-succeeds memory-IsHealthy memory-IsLawful 7 "ns" "i" routed_object routed_state
      (get-stored install_key routed_object empty) can_serve (epp_fits routed_object)
      nothing_to_filter

reconcile-Connected_example :
    Connected memory routed
      (routing_of "ns" routed_spec asked_routing)
      (reconcile memory 7 "ns" "i" routed_state).1
      (default_gateway asked_gateway)
unfolding gvk_supported
reconcile-Connected_example =
    reconcile-Connected memory-IsLawful 7 "ns" "i" routed_object routed_state asked_gateway
      asked_routing (get-stored install_key routed_object empty) separate_services routed_ok asks
      refl refl refl

-- The same, marked ready at time 3.
abbrev ready_object : Object Kind.scheduler_install
ready_object = record routed_object {
  status = record {
    conditions =
        record {
          type_name = "Ready";
          status = condition_true;
          reason = "Reconciled";
          message = "SchedulerInstall resources are ready";
          last_transition_time = 3;
        }
        ∷ [];
  };
}

abbrev ready_state : Table
ready_state = stored install_key ready_object empty

still_nothing_to_filter : FilterReady memory routed ready_state
unfolding set_defaults
still_nothing_to_filter = record {
  address = λ f e on there p x. cc (on.0);
  owner = λ f on p x. cc (on.0);
}

earlier :
    (c : Condition)
    → find_ready ready_object.status.conditions ≡ some c
    → ◌≢◌ {A = ℕ} c.last_transition_time 7
unfolding str_eq
earlier c found time =
    let three : 3 ≡ c.last_transition_time =
      ap (λ (x : Condition). x.last_transition_time) (some-injective _ _ found) in
    ground arith

reconcile_changes_resource_example :
    memory.get (reconcile memory 7 "ns" "i" ready_state).1 install_key ≢ ok ready_object
reconcile_changes_resource_example =
    reconcile_changes_resource memory-IsLawful 7 "ns" "i" ready_object ready_state
      (get-stored install_key ready_object empty) separate_services earlier
      (reconcile-succeeds memory-IsHealthy memory-IsLawful 7 "ns" "i" ready_object ready_state
        (get-stored install_key ready_object empty) can_serve (epp_fits ready_object)
        still_nothing_to_filter)
