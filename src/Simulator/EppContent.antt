-- ===== src/Simulator/EppContent.antt =====
-- The objects of the EPP that `reconcileEPPConfigMap` and `reconcileEPP` of
-- controllers/simulatordeployment_controller.go build. `e` has its defaults filled in.
use llm_d_scheduler_sim_oper.Base.{
  pos, add_one32, itoa, int_eq, String, none, some, List, [], ◌∷◌, ◌++◌, Labels, if◌then◌else◌,
}
use llm_d_scheduler_sim_oper.Api.{EppConfig, SimulatorDeployment}
use llm_d_scheduler_sim_oper.Kube.Objects.{
  Kind, Key, EnvVar, field_ref, tcp_socket, Container, Body,
}
use llm_d_scheduler_sim_oper.Scheduler.EppContent.{tcp_port}
use llm_d_scheduler_sim_oper.Scheduler.Plugins.{default_plugins}
use llm_d_scheduler_sim_oper.Simulator.Content.{simulator_object_key, tcp_service_port}

abbrev pub simulator_epp_key : SimulatorDeployment → Kind → Key
simulator_epp_key d k = simulator_object_key d k "gaie-sim-epp"

abbrev pub component_labels : SimulatorDeployment → String → Labels
component_labels d component =
    ("llm-d.ai/component", component) ∷ ("app.kubernetes.io/name", d.name) ∷ []

unfoldable pub epp_config_map : SimulatorDeployment → Body Kind.config_map
epp_config_map d = record {
  meta = record { labels = component_labels d "epp"; owner_references = [] };
  spec = ("default-plugins.yaml", default_plugins) ∷ [];
}

unfoldable pub simulator_epp_args : SimulatorDeployment → EppConfig → List String
simulator_epp_args d e =
    let verbosity = if int_eq e.verbosity (pos 0) then pos 1 else e.verbosity in
    ("--pool-name"
      ∷ "gaie-sim"
      ∷ "--pool-namespace"
      ∷ d.namespace
      ∷ "--pool-group"
      ∷ "inference.networking.k8s.io"
      ∷ "--zap-encoder"
      ∷ "json"
      ∷ "--config-file"
      ∷ "/config/default-plugins.yaml"
      ∷ "--kv-cache-usage-percentage-metric"
      ∷ "vllm:kv_cache_usage_perc"
      ∷ "--secure-serving=false"
      ∷ "--grpc-port"
      ∷ itoa e.port
      ∷ "--grpc-health-port"
      ∷ itoa (add_one32 e.port)
      ∷ "--v"
      ∷ itoa verbosity
      ∷ "--tracing=false"
      ∷ [])
    ++ e.args

abbrev pub env_field : String → String → EnvVar
env_field name path = record { name = name; source = field_ref "v1" path }

unfoldable pub simulator_epp_container : SimulatorDeployment → EppConfig → Container
simulator_epp_container d e =
    let health_port = add_one32 e.port in
    record {
      name = "epp";
      image = e.image;
      image_pull_policy = "IfNotPresent";
      args = simulator_epp_args d e;
      env = env_field "NAMESPACE" "metadata.namespace" ∷ env_field "POD_NAME" "metadata.name" ∷ [];
      ports =
          tcp_port "grpc" e.port
          ∷ tcp_port "grpc-health" health_port
          ∷ tcp_port "metrics" (pos 9090)
          ∷ [];
      liveness_probe = some (record {
        handler = tcp_socket health_port;
        initial_delay_seconds = pos 5;
        period_seconds = pos 10;
        timeout_seconds = pos 1;
        success_threshold = pos 1;
        failure_threshold = pos 3;
      });
      readiness_probe = some (record {
        handler = tcp_socket health_port;
        initial_delay_seconds = pos 0;
        period_seconds = pos 2;
        timeout_seconds = pos 1;
        success_threshold = pos 1;
        failure_threshold = pos 3;
      });
      startup_probe = none;
      volume_mounts = record { name = "plugins-config-volume"; mount_path = "/config" } ∷ [];
      resources = e.resources;
    }

unfoldable pub epp_deployment : SimulatorDeployment → EppConfig → Body Kind.deployment
unfolding simulator_epp_container
epp_deployment d e = record {
  meta = record { labels = component_labels d "epp"; owner_references = [] };
  spec = record {
    replicas = some e.replicas;
    selector = some (component_labels d "epp");
    template = record {
      labels = component_labels d "epp";
      annotations = [];
      service_account_name = "gaie-sim-epp";
      containers = simulator_epp_container d e ∷ [];
      volumes = record { name = "plugins-config-volume"; config_map_name = "gaie-sim-epp" } ∷ [];
    };
  };
}

unfoldable pub epp_service : SimulatorDeployment → EppConfig → Body Kind.service
epp_service d e = record {
  meta = record { labels = component_labels d "epp"; owner_references = [] };
  spec = record {
    service_type = "ClusterIP";
    selector = component_labels d "epp";
    ports = tcp_service_port e.port e.port ∷ [];
  };
}
