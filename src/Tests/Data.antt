-- ===== src/Tests/Data.antt =====
-- Resources as a user may write them, stored in an otherwise empty cluster.
use llm_d_scheduler_sim_oper.Base.{pos, true, false, none, some, [], ◌∷◌}
use llm_d_scheduler_sim_oper.Api.{
  ResourceRequirements, SchedulerEppConfig, SchedulerInstallSpec, StageConfig,
  GatewayInstanceConfig, SimulatorDeploymentSpec, Condition, condition_true, condition_false,
}
use llm_d_scheduler_sim_oper.Kube.Objects.{Kind, Key, Object}
use llm_d_scheduler_sim_oper.Kube.Client.{empty_meta}
use llm_d_scheduler_sim_oper.Kube.Client.Memory.{Table, stored, empty}

abbrev no_resources : ResourceRequirements
no_resources = record { limits = []; requests = [] }

abbrev pub epp_example : SchedulerEppConfig
epp_example = record {
  enabled = true;
  name = "e";
  replicas = pos 0;
  image = "";
  port = pos 0;
  verbosity = pos 0;
  args = [];
  pool_name = "";
  pool_namespace = "";
  resources = no_resources;
  config_profile = "";
}

-- An EPP, a route to its pool, a DestinationRule, and an EnvoyFilter.
abbrev pub install_spec : SchedulerInstallSpec
install_spec = record {
  scheduler_namespace = "";
  simulator_namespace = "sim";
  proxy_service = record { name = "p"; port = pos 0; target_port = pos 0; selector = [] };
  epp = some epp_example;
  gateway = some (record {
    enabled = true;
    name = "";
    class_name = "";
    listener_port = pos 0;
    listener_protocol = "";
  });
  routing = some (record {
    enabled = true;
    backend_type = "InferencePool";
    inference_pool = none;
    http_route_name = "";
    parent_gateway = record { name = ""; namespace = "" };
  });
  destination_rule = some (record { enabled = true; algorithm = ""; connection_pool = none });
  envoy_filter = some (record { enabled = true; name = ""; workload_selector = [] });
}

abbrev pub install_key : Key
install_key = record { kind = Kind.scheduler_install; namespace = "ns"; name = "i" }

abbrev pub install_object : Object Kind.scheduler_install
install_object = record {
  body = record { meta = empty_meta; spec = install_spec };
  status = record { conditions = [] };
}

abbrev pub install_state : Table
install_state = stored install_key install_object empty

-- The same with the scheduler in another namespace than the resource.
abbrev pub far_object : Object Kind.scheduler_install
far_object = record {
  body = record { meta = empty_meta; spec = record install_spec { scheduler_namespace = "far" } };
  status = record { conditions = [] };
}

abbrev pub far_state : Table
far_state = stored install_key far_object empty

abbrev pub stage_example : StageConfig
stage_example = record {
  enabled = true;
  replicas = pos 3;
  image = "";
  port = pos 0;
  log_verbosity = pos 0;
  resources = no_resources;
  args = "--seed" ∷ "7" ∷ [];
}

abbrev instance_example : GatewayInstanceConfig
instance_example = record {
  enabled = true;
  replicas = pos 0;
  image = "";
  port = pos 0;
  resources = no_resources;
}

-- A decode stage, an EPP and both gateways.
abbrev pub simulator_spec : SimulatorDeploymentSpec
simulator_spec = record {
  replicas = pos 0;
  image = "";
  log_verbosity = pos 0;
  resources = no_resources;
  service = record { name = ""; port = pos 0; service_type = "" };
  gateway = record { enabled = false; class_name = ""; route_name = "" };
  load_balancing = none;
  epp = some (record {
    enabled = true;
    replicas = pos 0;
    image = "";
    port = pos 0;
    verbosity = pos 0;
    args = [];
    resources = no_resources;
  });
  prefill = none;
  decode = some stage_example;
  inference_gateway =
      some (record {
        enabled = true;
        standard = some instance_example;
        istio = some instance_example;
      });
}

abbrev pub simulator_example_key : Key
simulator_example_key = record { kind = Kind.simulator_deployment; namespace = "ns"; name = "d" }

abbrev pub simulator_object : Object Kind.simulator_deployment
simulator_object = record {
  body = record { meta = empty_meta; spec = simulator_spec };
  status = record {
    replicas = pos 0;
    ready_replicas = pos 0;
    endpoints = [];
    gateway_url = "";
    conditions = [];
  };
}

abbrev pub simulator_state : Table
simulator_state = stored simulator_example_key simulator_object empty

abbrev pub stale_ready : Condition
stale_ready = record {
  type_name = "Ready";
  status = condition_false;
  reason = "DeploymentNotReady";
  message = "Waiting for pods to be ready";
  last_transition_time = 3;
}

abbrev pub other_condition : Condition
other_condition = record {
  type_name = "Progressing";
  status = condition_true;
  reason = "Rollout";
  message = "";
  last_transition_time = 2;
}

abbrev pub fresh_ready : Condition
fresh_ready = record {
  type_name = "Ready";
  status = condition_true;
  reason = "DeploymentReady";
  message = "Simulator deployment is ready";
  last_transition_time = 9;
}
