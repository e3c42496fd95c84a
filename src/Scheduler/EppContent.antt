-- ===== src/Scheduler/EppContent.antt =====
-- What `reconcileSchedulerEPP` and the functions under it write: the names, rules, labels, arguments
-- and the container of the endpoint picker.
use llm_d_scheduler_sim_oper.Base.{
  ℤ, pos, add_one32, itoa, int_eq, String, ◌<>◌, none, some, List, [], ◌∷◌, ◌++◌, Labels,
  if◌then◌else◌,
}
use llm_d_scheduler_sim_oper.Api.{SchedulerEppConfig, SchedulerInstall}
use llm_d_scheduler_sim_oper.Kube.Objects.{
  Kind, Key, ContainerPort, tcp_socket, Container, PolicyRule, RoleBindingSpec, Body,
}
use llm_d_scheduler_sim_oper.Kube.Client.{empty_meta}

-- The resource as the owner of what it creates.
abbrev pub owner_key : SchedulerInstall → Key
owner_key i = record { kind = Kind.scheduler_install; namespace = i.namespace; name = i.name }

unfoldable pub cross_namespace_labels : SchedulerInstall → Labels
cross_namespace_labels i =
    ("sim.llm-d.io/schedulerInstall", i.name)
    ∷ ("sim.llm-d.io/schedulerNamespace", i.namespace)
    ∷ []

-- Where an object of the EPP lies: in the scheduler's namespace, or the role and its binding in
-- the simulator's.
abbrev pub epp_key : SchedulerInstall → SchedulerEppConfig → Kind → Key
epp_key i e k = record { kind = k; namespace = i.spec.scheduler_namespace; name = e.name }

abbrev pub epp_rbac_key : SchedulerInstall → SchedulerEppConfig → Kind → Key
epp_rbac_key i e k = record { kind = k; namespace = i.spec.simulator_namespace; name = e.name }

abbrev pub epp_config_name : SchedulerEppConfig → String
epp_config_name e = e.name <> "-config"

abbrev pub epp_config_key : SchedulerInstall → SchedulerEppConfig → Key
epp_config_key i e = record {
  kind = Kind.config_map;
  namespace = i.spec.scheduler_namespace;
  name = epp_config_name e;
}

abbrev pub empty_deployment : Body Kind.deployment
empty_deployment = record {
  meta = empty_meta;
  spec = record {
    replicas = none;
    selector = none;
    template = record {
      labels = [];
      annotations = [];
      service_account_name = "";
      containers = [];
      volumes = [];
    };
  };
}

abbrev pub empty_service : Body Kind.service
empty_service = record {
  meta = empty_meta;
  spec = record { service_type = ""; selector = []; ports = [] };
}

unfoldable pub epp_rules : List PolicyRule
epp_rules =
    record {
      api_groups = "" ∷ [];
      resources = "pods" ∷ "services" ∷ "endpoints" ∷ [];
      verbs = "get" ∷ "list" ∷ "watch" ∷ [];
    }
    ∷ record {
      api_groups = "inference.networking.k8s.io" ∷ [];
      resources = "inferencepools" ∷ "inferenceobjectives" ∷ [];
      verbs = "get" ∷ "list" ∷ "watch" ∷ "update" ∷ "patch" ∷ [];
    }
    ∷ record {
      api_groups = "inference.networking.x-k8s.io" ∷ [];
      resources = "inferencepools" ∷ "inferenceobjectives" ∷ [];
      verbs = "get" ∷ "list" ∷ "watch" ∷ "update" ∷ "patch" ∷ [];
    }
    ∷ []

unfoldable pub epp_role_binding : SchedulerInstall → SchedulerEppConfig → RoleBindingSpec
epp_role_binding i e = record {
  role_ref =
      some (record { api_group = "rbac.authorization.k8s.io"; kind = "Role"; name = e.name });
  subjects =
      record { kind = "ServiceAccount"; name = e.name; namespace = i.spec.scheduler_namespace }
      ∷ [];
}

unfoldable pub epp_labels : SchedulerInstall → SchedulerEppConfig → Labels
epp_labels i e = ("app", e.name) ∷ ("app.kubernetes.io/name", i.name) ∷ []

unfoldable pub epp_grpc_port : SchedulerEppConfig → ℤ
epp_grpc_port e = if int_eq e.port (pos 0) then pos 9002 else e.port

abbrev pub epp_verbosity : SchedulerEppConfig → ℤ
epp_verbosity e = if int_eq e.verbosity (pos 0) then pos 1 else e.verbosity

unfoldable pub epp_args : SchedulerEppConfig → List String
epp_args e =
    ("--pool-name"
      ∷ e.pool_name
      ∷ "--pool-namespace"
      ∷ e.pool_namespace
      ∷ "--pool-group"
      ∷ "inference.networking.k8s.io"
      ∷ "--zap-encoder"
      ∷ "json"
      ∷ "--config-file"
      ∷ "/etc/epp/epp-config.yaml"
      ∷ "--kv-cache-usage-percentage-metric"
      ∷ "vllm:kv_cache_usage_perc"
      ∷ "--secure-serving=false"
      ∷ "--grpc-port"
      ∷ itoa (epp_grpc_port e)
      ∷ "--grpc-health-port"
      ∷ itoa (add_one32 (epp_grpc_port e))
      ∷ "--v"
      ∷ itoa (epp_verbosity e)
      ∷ "--tracing=false"
      ∷ [])
    ++ e.args

abbrev pub tcp_port : String → ℤ → ContainerPort
tcp_port name port = record { name = name; container_port = port; protocol = "TCP" }

unfoldable pub epp_container : SchedulerEppConfig → Container
unfolding epp_grpc_port epp_args
epp_container e =
    let grpc_port = epp_grpc_port e in
    let health_port = add_one32 grpc_port in
    record {
      name = "epp";
      image = e.image;
      image_pull_policy = "IfNotPresent";
      args = epp_args e;
      env = [];
      ports =
          tcp_port "grpc" grpc_port
          ∷ tcp_port "grpc-health" health_port
          ∷ tcp_port "metrics" (pos 9090)
          ∷ [];
      liveness_probe = some (record {
        handler = tcp_socket health_port;
        initial_delay_seconds = pos 5;
        period_seconds = pos 10;
        timeout_seconds = pos 1;
        success_threshold = pos 1;
        failure_threshold = pos 3;
      });
      readiness_probe = some (record {
        handler = tcp_socket health_port;
        initial_delay_seconds = pos 0;
        period_seconds = pos 2;
        timeout_seconds = pos 1;
        success_threshold = pos 1;
        failure_threshold = pos 3;
      });
      startup_probe = none;
      volume_mounts = record { name = "epp-config"; mount_path = "/etc/epp" } ∷ [];
      resources = e.resources;
    }
