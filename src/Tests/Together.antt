-- ===== src/Tests/Together.antt =====
-- The theorems on both controllers, at the resources of the examples.
use mathlib.Core.Path.{subst}
use mathlib.Core.Option.{some-injective}
use llm_d_scheduler_sim_oper.Base.{pos, str_eq, true, none, some, [], ◌≡◌, ◌≢◌, ◌↔◌, refl}
use llm_d_scheduler_sim_oper.Api.{
  EppConfig, SchedulerEppConfig, SchedulerRoutingConfig, SchedulerInstall, SimulatorDeployment,
}
use llm_d_scheduler_sim_oper.Kube.Objects.{Kind, Key, Body, Object}
use llm_d_scheduler_sim_oper.Kube.Calls.{ok}
use llm_d_scheduler_sim_oper.Kube.Client.{Holds, gvk_supported}
use llm_d_scheduler_sim_oper.Kube.Client.Memory.{
  Table, memory, stored, get-stored, get-stored_ne, empty,
}
use llm_d_scheduler_sim_oper.Kube.Client.Memory.Laws.{memory-IsLawful}
use llm_d_scheduler_sim_oper.Scheduler.Defaults.{
  set_defaults, default_epp, text_or, default_routing, default_gateway,
}
use llm_d_scheduler_sim_oper.Scheduler.EppContent.{
  epp_key, epp_grpc_port, epp_container, empty_service,
}
use llm_d_scheduler_sim_oper.Scheduler.NetworkContent.{reference_grant_key}
use llm_d_scheduler_sim_oper.Scheduler.Reconcile.{reconcile, with_defaults}
use llm_d_scheduler_sim_oper.Scheduler.Reconcile.Converged.{Converged}
use llm_d_scheduler_sim_oper.Scheduler.Reconcile.Outcome.{reconcile-Converged}
use llm_d_scheduler_sim_oper.Simulator.Content.{stage_name, legacy_name}
use llm_d_scheduler_sim_oper.Simulator.EppContent.{simulator_epp_container}
use llm_d_scheduler_sim_oper.Simulator.Reconcile.{reconcile_request, simulator_with_defaults}
use llm_d_scheduler_sim_oper.Simulator.Reconcile.Parts.{differs}
use llm_d_scheduler_sim_oper.Simulator.Reconcile.Additive.{
  NotScaled, reconcile_request_keeps_present,
}
use llm_d_scheduler_sim_oper.Main.{simulator_builder}
use llm_d_scheduler_sim_oper.Main.Watches.{Appears, reconcile_request-Appears}
use llm_d_scheduler_sim_oper.Cluster.EppPorts.{AreUsable, Serviceable, epp_ports_usable}
use llm_d_scheduler_sim_oper.Cluster.Stays.{EppApart, here, next, SimulatorRuns-Converged}
use llm_d_scheduler_sim_oper.Cluster.Grants.{Denies, NeedsGrant, second_install-Denies}
use llm_d_scheduler_sim_oper.Cluster.Serving.{proxy_of}
use llm_d_scheduler_sim_oper.Tests.Runs.{install, separate, run_ok}
use llm_d_scheduler_sim_oper.Tests.Data.{
  epp_example, install_spec, install_key, install_object, install_state, simulator_spec,
  simulator_state, simulator_object, simulator_example_key,
}

abbrev simulated_epp : EppConfig
simulated_epp = record {
  enabled = true;
  replicas = pos 1;
  image = "epp";
  port = pos 9089;
  verbosity = pos 0;
  args = [];
  resources = record { limits = []; requests = [] };
}

epp_ports_usable_example :
    (AreUsable (epp_container epp_example).ports ↔ Serviceable (epp_grpc_port epp_example))
    × (AreUsable
          (simulator_epp_container
            (simulator_with_defaults "ns" "d" simulator_spec)
            simulated_epp).ports
        ↔ Serviceable (pos 9089))
epp_ports_usable_example =
    epp_ports_usable epp_example (simulator_with_defaults "ns" "d" simulator_spec) simulated_epp

-- A Service that someone else has made, of the name that the EPP's Service has.
abbrev taken_key : Key
taken_key = record { kind = Kind.service; namespace = "ns"; name = "gaie-sim-epp" }

abbrev taken : Object Kind.service
taken = record { body = empty_service; status = record { cluster_ip = "10.96.0.77" } }

abbrev taken_state : Table
taken_state = stored taken_key taken simulator_state

reconcile_request_keeps_present_example :
    memory.get (reconcile_request memory 7 "ns" "d" taken_state).1 taken_key ≡ ok taken
reconcile_request_keeps_present_example =
    reconcile_request_keeps_present memory-IsLawful 7 "ns" "d" taken_state taken_key taken
      (get-stored taken_key taken simulator_state)
      λ spec. record { prefill = λ x. cc; decode = λ x. cc; single = λ x. cc; resource = λ x. cc }

abbrev decode_key : Key
decode_key = record {
  kind = Kind.deployment;
  namespace = "ns";
  name = "ms-sim-llm-d-modelservice-decode";
}

reconcile_request-Appears_example :
    Appears memory simulator_builder
      (record { kind = Kind.simulator_deployment; namespace = "ns"; name = "d" })
      decode_key
      (reconcile_request memory 7 "ns" "d" simulator_state).1
reconcile_request-Appears_example =
    reconcile_request-Appears memory-IsLawful 7 "ns" "d" simulator_state decode_key (λ x. cc)
      (get-stored_ne simulator_example_key decode_key simulator_object empty (λ x. cc))

converged : Converged memory install 7 (reconcile memory 7 "ns" "i" install_state).1
converged =
    reconcile-Converged memory-IsLawful 7 "ns" "i" install_object install_state
      (get-stored install_key install_object empty) separate run_ok

apart : EppApart install "ns" "d"
unfolding set_defaults default_epp stage_name legacy_name text_or str_eq
apart = record {
  apart = λ e spec there.
      subst
        (λ (x : SchedulerEppConfig).
          NotScaled (simulator_with_defaults "ns" "d" spec) (epp_key install x Kind.deployment))
        (some-injective _ _ there)
        (record { prefill = λ x. cc; decode = λ x. cc; single = λ x. cc; resource = λ x. cc });
}

SimulatorRuns-Converged_example :
    Converged memory install 7
      (reconcile_request memory 9 "ns" "d"
        (reconcile_request memory 8 "ns" "d" (reconcile memory 7 "ns" "i" install_state).1).1).1
SimulatorRuns-Converged_example =
    SimulatorRuns-Converged memory-IsLawful install 7
      (next (next here 8 "ns" "d" apart) 9 "ns" "d" apart) converged

-- A SimulatorDeployment in the install's simulator namespace.
abbrev simulated : SimulatorDeployment
simulated = simulator_with_defaults "sim" "d" simulator_spec

abbrev proxied : Body Kind.service
proxied = proxy_of (with_defaults "ns" "i" install_spec) empty_service

-- Another SchedulerInstall for the simulators of "sim", from the namespace "far".
abbrev other : SchedulerInstall
other = with_defaults "far" "o" (record install_spec { scheduler_namespace = "far"; epp = none })

abbrev service_route : SchedulerRoutingConfig
service_route = record {
  enabled = true;
  backend_type = "Service";
  inference_pool = none;
  http_route_name = "r";
  parent_gateway = record { name = "g"; namespace = "far" };
}

needs_grant : NeedsGrant other service_route
unfolding set_defaults text_or str_eq
needs_grant = record { backend = refl; apart = differs "sim" "far" refl }

install_route : SchedulerRoutingConfig
unfolding default_epp default_gateway default_routing
install_route =
    default_routing (some (default_epp "sim" epp_example))
      (some (
        default_gateway (record {
          enabled = true;
          name = "";
          class_name = "";
          listener_port = pos 0;
          listener_protocol = "";
        })))
      "ns" "sim"
      (record {
        enabled = true;
        backend_type = "InferencePool";
        inference_pool = none;
        http_route_name = "";
        parent_gateway = record { name = ""; namespace = "" };
      })

far_apart : other.spec.scheduler_namespace ≢ install.spec.scheduler_namespace
unfolding set_defaults text_or str_eq
far_apart = differs "far" "ns" refl

second_install-Denies_example :
    Holds memory
      (reference_grant_key other)
      (Denies other service_route)
      (reconcile memory 7 "ns" "i" install_state).1
unfolding set_defaults install_route default_routing text_or str_eq gvk_supported
second_install-Denies_example =
    second_install-Denies memory-IsLawful 7 "ns" "i" install_object install_state other
      service_route install_route (get-stored install_key install_object empty) separate run_ok
      (refl, refl) refl needs_grant refl far_apart
