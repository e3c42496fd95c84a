-- ===== src/Simulator/GatewayContent.antt =====
-- The objects of a gateway that `reconcileGatewayConfigMap`, `buildGatewayContainer`,
-- `buildGatewayVolumes` and `reconcileGatewayInstance` of
-- controllers/simulatordeployment_controller.go build. `g` has its defaults filled in.
use llm_d_scheduler_sim_oper.Base.{
  pos, String, Bool, true, false, none, some, List, [], ◌∷◌, ◌++◌, Labels, if◌then◌else◌,
}
use llm_d_scheduler_sim_oper.Api.{GatewayInstanceConfig, SimulatorDeployment}
use llm_d_scheduler_sim_oper.Kube.Objects.{Kind, EnvVar, literal, http_get, Container, Volume, Body}
use llm_d_scheduler_sim_oper.Scheduler.EppContent.{tcp_port}
use llm_d_scheduler_sim_oper.Scheduler.Plugins.{lines}
use llm_d_scheduler_sim_oper.Simulator.Content.{tcp_service_port}
use llm_d_scheduler_sim_oper.Simulator.EppContent.{component_labels, env_field}

unfoldable pub envoy_config : String
envoy_config = lines (
    "admin:" ∷ "  address:" ∷ "    socket_address:" ∷ "      address: 0.0.0.0"
    ∷ "      port_value: 19000" ∷ "" ∷ "static_resources:" ∷ "  listeners:" ∷ "  - name: listener_0"
    ∷ "    address:" ∷ "      socket_address:" ∷ "        address: 0.0.0.0"
    ∷ "        port_value: 80" ∷ "    filter_chains:" ∷ "    - filters:"
    ∷ "      - name: envoy.filters.network.http_connection_manager" ∷ "        typed_config:"
    ∷ "          \"@type\": type.googleapis.com/envoy.extensions.filters.network.http_connection_manager.v3.HttpConnectionManager"
    ∷ "          stat_prefix: ingress_http" ∷ "          route_config:"
    ∷ "            name: local_route" ∷ "            virtual_hosts:" ∷ "            - name: backend"
    ∷ "              domains: [\"*\"]" ∷ "              routes:" ∷ "              - match:"
    ∷ "                  prefix: \"/\"" ∷ "                route:"
    ∷ "                  cluster: simulator_cluster" ∷ "          http_filters:"
    ∷ "          - name: envoy.filters.http.router" ∷ "            typed_config:"
    ∷ "              \"@type\": type.googleapis.com/envoy.extensions.filters.http.router.v3.Router"
    ∷ "" ∷ "  clusters:" ∷ "  - name: simulator_cluster" ∷ "    connect_timeout: 5s"
    ∷ "    type: STRICT_DNS" ∷ "    lb_policy: ROUND_ROBIN" ∷ "    load_assignment:"
    ∷ "      cluster_name: simulator_cluster" ∷ "      endpoints:" ∷ "      - lb_endpoints:"
    ∷ "        - endpoint:" ∷ "            address:" ∷ "              socket_address:"
    ∷ "                address: ms-sim-llm-d-modelservice-decode"
    ∷ "                port_value: 8200" ∷ [])

unfoldable pub gateway_config_map : SimulatorDeployment → Body Kind.config_map
gateway_config_map d = record {
  meta = record { labels = component_labels d "gateway"; owner_references = [] };
  spec = ("envoy.yaml", envoy_config) ∷ [];
}

abbrev pod_env : List EnvVar
pod_env = env_field "POD_NAME" "metadata.name" ∷ env_field "POD_NAMESPACE" "metadata.namespace" ∷ []

unfoldable pub build_gateway_container : GatewayInstanceConfig → Bool → Container
build_gateway_container g true = record {
  name = "istio-proxy";
  image = g.image;
  image_pull_policy = "IfNotPresent";
  args = "proxy" ∷ "sidecar" ∷ [];
  env = pod_env;
  ports = tcp_port "http" (pos 8080) ∷ [];
  liveness_probe = none;
  readiness_probe = none;
  startup_probe = none;
  volume_mounts = [];
  resources = g.resources;
}
build_gateway_container g false = record {
  name = "kgateway-proxy";
  image = g.image;
  image_pull_policy = "IfNotPresent";
  args =
      "--disable-hot-restart" ∷ "--service-node" ∷ "$(POD_NAME).$(POD_NAMESPACE)" ∷ "--log-level"
      ∷ "warn" ∷ "--component-log-level" ∷ "connection:warn,http:warn,upstream:warn" ∷ [];
  env = pod_env ++ record { name = "ENVOY_UID"; source = literal "0" } ∷ [];
  ports = tcp_port "listener-80" (pos 80) ∷ tcp_port "http-monitoring" (pos 9091) ∷ [];
  liveness_probe = none;
  readiness_probe = some (record {
    handler = http_get "/ready" (pos 19000) "HTTP";
    initial_delay_seconds = pos 5;
    period_seconds = pos 10;
    timeout_seconds = pos 1;
    success_threshold = pos 1;
    failure_threshold = pos 3;
  });
  startup_probe = some (record {
    handler = http_get "/ready" (pos 19000) "HTTP";
    initial_delay_seconds = pos 0;
    period_seconds = pos 1;
    timeout_seconds = pos 2;
    success_threshold = pos 1;
    failure_threshold = pos 60;
  });
  volume_mounts = record { name = "envoy-config"; mount_path = "/etc/envoy" } ∷ [];
  resources = g.resources;
}

unfoldable pub build_gateway_volumes : String → Bool → List Volume
build_gateway_volumes name true = []
build_gateway_volumes name false = record { name = "envoy-config"; config_map_name = name } ∷ []

unfoldable pub gateway_labels : SimulatorDeployment → Bool → Labels
gateway_labels d is_istio =
    component_labels d "gateway"
    ++ (if is_istio then ("llm-d.ai/gateway-type", "istio") ∷ [] else [])

unfoldable pub gateway_deployment :
    SimulatorDeployment → String → GatewayInstanceConfig → Bool → Body Kind.deployment
unfolding build_gateway_container build_gateway_volumes gateway_labels
gateway_deployment d name g is_istio = record {
  meta = record { labels = gateway_labels d is_istio; owner_references = [] };
  spec = record {
    replicas = some g.replicas;
    selector = some (gateway_labels d is_istio);
    template = record {
      labels = gateway_labels d is_istio;
      annotations = if is_istio then ("sidecar.istio.io/inject", "false") ∷ [] else [];
      service_account_name = "";
      containers = build_gateway_container g is_istio ∷ [];
      volumes = build_gateway_volumes name is_istio;
    };
  };
}

unfoldable pub gateway_service :
    SimulatorDeployment → GatewayInstanceConfig → Bool → Body Kind.service
unfolding gateway_labels
gateway_service d g is_istio = record {
  meta = record { labels = gateway_labels d is_istio; owner_references = [] };
  spec = record {
    service_type = "ClusterIP";
    selector = gateway_labels d is_istio;
    ports = tcp_service_port g.port (pos 80) ∷ [];
  };
}
