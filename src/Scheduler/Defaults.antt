-- ===== src/Scheduler/Defaults.antt =====
-- `setDefaults` of controllers/schedulerinstall_controller.go, one function for each part of the
-- spec. The Go code writes the fields in place; here each part is computed from the earlier ones.
pub mod Filled
pub mod Idempotent
pub mod Kept
pub mod KeptParts
pub mod Parts
use llm_d_scheduler_sim_oper.Base.{
  ℤ, pos, String, Option, none, some, [], ◌∷◌, Labels, is_empty_map, str_eq, int_eq, if◌then◌else◌,
}
use llm_d_scheduler_sim_oper.Api.{
  ConnectionPoolConfig, LoadBalancingConfig, ProxyServiceConfig, SchedulerEppConfig,
  SchedulerGatewayConfig, GatewayRef, SchedulerEnvoyFilterConfig, InferencePoolRef,
  SchedulerRoutingConfig, SchedulerInstallSpec,
}

-- `if s == "" { s = d }`
unfoldable pub text_or : String → String → String
text_or s d = if str_eq s "" then d else s

-- `if n == 0 { n = d }`
unfoldable pub int_or : ℤ → ℤ → ℤ
int_or n d = if int_eq n (pos 0) then d else n

-- `if len(m) == 0 { m = d }`
unfoldable pub labels_or : Labels → Labels → Labels
labels_or m d = if is_empty_map m then d else m

unfoldable pub default_proxy_service : ProxyServiceConfig → ProxyServiceConfig
default_proxy_service p = record {
  name = text_or p.name "gaie-inference-scheduling-proxy";
  port = int_or p.port (pos 8200);
  target_port = int_or p.target_port (int_or p.port (pos 8200));
  selector =
      labels_or p.selector
        (("llm-d.ai/role", "decode") ∷ ("llm-d.ai/inferenceServing", "true") ∷ []);
}

unfoldable pub default_epp : String → SchedulerEppConfig → SchedulerEppConfig
default_epp simulator_namespace e = record e {
  name = text_or e.name "gaie-inference-scheduling-epp";
  replicas = int_or e.replicas (pos 1);
  image = text_or e.image "ghcr.io/llm-d/llm-d-inference-scheduler:v0.4.0";
  port = int_or e.port (pos 9002);
  pool_name = text_or e.pool_name "gaie-inference-scheduling";
  pool_namespace = text_or e.pool_namespace simulator_namespace;
  config_profile = text_or e.config_profile "default";
}

unfoldable pub default_gateway : SchedulerGatewayConfig → SchedulerGatewayConfig
default_gateway g = record g {
  name = text_or g.name "infra-inference-scheduling-inference-gateway";
  class_name = text_or g.class_name "istio";
  listener_port = int_or g.listener_port (pos 80);
  listener_protocol = text_or g.listener_protocol "HTTP";
}

-- `ParentGateway`, from the gateway with its defaults.
unfoldable pub default_parent : Option SchedulerGatewayConfig → String → GatewayRef → GatewayRef
default_parent none scheduler_namespace r = record r {
  namespace = text_or r.namespace scheduler_namespace;
}
default_parent (some g) scheduler_namespace r = record {
  name = text_or r.name g.name;
  namespace = text_or r.namespace scheduler_namespace;
}

abbrev pub empty_pool : InferencePoolRef
empty_pool = record { name = ""; namespace = ""; port = pos 0 }

abbrev pub pool_or_empty : Option InferencePoolRef → InferencePoolRef
pool_or_empty none = empty_pool
pool_or_empty (some p) = p

-- `InferencePool`, from the EPP with its defaults.
unfoldable pub default_pool :
    Option SchedulerEppConfig → String → InferencePoolRef → InferencePoolRef
default_pool none simulator_namespace p = record p {
  namespace = text_or p.namespace simulator_namespace;
}
default_pool (some e) simulator_namespace p = record p {
  name = text_or p.name e.pool_name;
  namespace =
      text_or p.namespace
        (if str_eq e.pool_namespace "" then simulator_namespace else e.pool_namespace);
}

unfoldable pub default_routing :
    Option SchedulerEppConfig
    → Option SchedulerGatewayConfig
    → String
    → String
    → SchedulerRoutingConfig
    → SchedulerRoutingConfig
default_routing epp gateway scheduler_namespace simulator_namespace r =
    let backend_type = text_or r.backend_type "Service" in
    record {
      enabled = r.enabled;
      backend_type = backend_type;
      inference_pool =
          if str_eq backend_type "InferencePool"
          then some (default_pool epp simulator_namespace (pool_or_empty r.inference_pool))
          else r.inference_pool;
      http_route_name = text_or r.http_route_name "llm-d-inference-scheduling";
      parent_gateway = default_parent gateway scheduler_namespace r.parent_gateway;
    }

abbrev pool_settings_or : Option ConnectionPoolConfig → ConnectionPoolConfig
pool_settings_or none = record {
  http1_max_pending_requests = pos 1;
  max_requests_per_connection = pos 1;
}
pool_settings_or (some p) = p

unfoldable pub default_destination_rule : LoadBalancingConfig → LoadBalancingConfig
default_destination_rule d = record d {
  algorithm = text_or d.algorithm "ROUND_ROBIN";
  connection_pool = some (pool_settings_or d.connection_pool);
}

abbrev selector_or : Option SchedulerGatewayConfig → Labels → Labels
selector_or none m = m
selector_or (some g) m = labels_or m (("gateway.networking.k8s.io/gateway-name", g.name) ∷ [])

unfoldable pub default_envoy_filter :
    Option SchedulerGatewayConfig → SchedulerEnvoyFilterConfig → SchedulerEnvoyFilterConfig
default_envoy_filter gateway f = record f {
  name = text_or f.name "epp-ext-proc";
  workload_selector = selector_or gateway f.workload_selector;
}

abbrev pub map_option : {A : Type 0} → (A → A) → Option A → Option A
map_option f none = none
map_option f (some a) = some (f a)

-- `setDefaults`, on the namespace of the resource and its spec.
unfoldable pub set_defaults : String → SchedulerInstallSpec → SchedulerInstallSpec
set_defaults namespace s =
    let scheduler_namespace = text_or s.scheduler_namespace namespace in
    let epp = map_option (default_epp s.simulator_namespace) s.epp in
    let gateway = map_option default_gateway s.gateway in
    record {
      scheduler_namespace = scheduler_namespace;
      simulator_namespace = s.simulator_namespace;
      proxy_service = default_proxy_service s.proxy_service;
      epp = epp;
      gateway = gateway;
      routing =
          map_option (default_routing epp gateway scheduler_namespace s.simulator_namespace)
            s.routing;
      destination_rule = map_option default_destination_rule s.destination_rule;
      envoy_filter = map_option (default_envoy_filter gateway) s.envoy_filter;
    }
