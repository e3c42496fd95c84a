-- ===== src/Scheduler/NetworkContent.antt =====
-- What is written of the proxy Service, the Gateway, the HTTPRoute, the ReferenceGrant and the
-- DestinationRule of controllers/schedulerinstall_controller.go. `i` is the resource with its
-- defaults set.
use llm_d_scheduler_sim_oper.Base.{
  pos, int_eq, str_eq, String, ◌<>◌, Option, none, some, List, [], ◌∷◌, merge, Bool, if◌then◌else◌,
}
use llm_d_scheduler_sim_oper.Api.{
  ConnectionPoolConfig, LoadBalancingConfig, SchedulerGatewayConfig, InferencePoolRef,
  SchedulerRoutingConfig, SchedulerInstall,
}
use llm_d_scheduler_sim_oper.Kube.Objects.{
  Kind, Key, GroupVersionKind, ObjectMeta, Value, text, int, Body,
}
use llm_d_scheduler_sim_oper.Kube.Json.{object, array}
use llm_d_scheduler_sim_oper.Scheduler.EppContent.{cross_namespace_labels}

abbrev pub gateway_gvk : GroupVersionKind
gateway_gvk = record { group = "gateway.networking.k8s.io"; version = "v1"; kind = "Gateway" }

abbrev pub http_route_gvk : GroupVersionKind
http_route_gvk = record { group = "gateway.networking.k8s.io"; version = "v1"; kind = "HTTPRoute" }

abbrev pub reference_grant_gvk : GroupVersionKind
reference_grant_gvk = record {
  group = "gateway.networking.k8s.io";
  version = "v1beta1";
  kind = "ReferenceGrant";
}

abbrev pub destination_rule_gvk : GroupVersionKind
destination_rule_gvk = record {
  group = "networking.istio.io";
  version = "v1beta1";
  kind = "DestinationRule";
}

-- `SetLabels` of the present labels with those that name the resource added.
abbrev pub add_owner_labels : SchedulerInstall → ObjectMeta → ObjectMeta
add_owner_labels i m = record m { labels = merge (cross_namespace_labels i) m.labels }

module _ (i : SchedulerInstall) where
  abbrev pub proxy_key : Key
  proxy_key = record {
    kind = Kind.service;
    namespace = i.spec.simulator_namespace;
    name = i.spec.proxy_service.name;
  }

  unfoldable pub mutate_proxy_service : Body Kind.service → Body Kind.service
  mutate_proxy_service b = record b {
    spec = record {
      service_type = "ClusterIP";
      selector = i.spec.proxy_service.selector;
      ports =
          record {
            name = "http";
            port = i.spec.proxy_service.port;
            target_port = i.spec.proxy_service.target_port;
            protocol = "TCP";
          }
          ∷ [];
    };
  }

  abbrev pub gateway_key : SchedulerGatewayConfig → Key
  gateway_key g = record {
    kind = Kind.gateway;
    namespace = i.spec.scheduler_namespace;
    name = g.name;
  }

  unfoldable pub gateway_spec : SchedulerGatewayConfig → Value
  gateway_spec g = object (
      ("gatewayClassName", text g.class_name)
      ∷ (
        "listeners",
        array (
            object (
              ("name", text "default")
              ∷ ("port", int g.listener_port)
              ∷ ("protocol", text g.listener_protocol)
              ∷ [])
            ∷ []),
      )
      ∷ [])

  abbrev pub http_route_key : SchedulerRoutingConfig → Key
  http_route_key r = record {
    kind = Kind.http_route;
    namespace = i.spec.scheduler_namespace;
    name = r.http_route_name;
  }

  abbrev pub service_backend : Value
  service_backend = object (
      ("group", text "")
      ∷ ("kind", text "Service")
      ∷ ("name", text i.spec.proxy_service.name)
      ∷ ("namespace", text i.spec.simulator_namespace)
      ∷ ("port", int i.spec.proxy_service.port)
      ∷ ("weight", int (pos 1))
      ∷ [])

  abbrev pub pool_backend : InferencePoolRef → Value
  pool_backend p = object (
      ("group", text "inference.networking.k8s.io")
      ∷ ("kind", text "InferencePool")
      ∷ ("name", text p.name)
      ∷ ("namespace", text p.namespace)
      ∷ ("weight", int (pos 1))
      ∷ (if int_eq p.port (pos 0) then [] else ("port", int p.port) ∷ []))

  abbrev pub backend_or_pool : Bool → Option InferencePoolRef → Value
  backend_or_pool is_pool none = service_backend
  backend_or_pool is_pool (some p) = if is_pool then pool_backend p else service_backend

  unfoldable pub backend_ref : SchedulerRoutingConfig → Value
  backend_ref r = backend_or_pool (str_eq r.backend_type "InferencePool") r.inference_pool

  unfoldable pub http_route_spec : SchedulerRoutingConfig → Value
  http_route_spec r = object (
      (
        "parentRefs",
        array (
            object (
              ("group", text "gateway.networking.k8s.io")
              ∷ ("kind", text "Gateway")
              ∷ ("name", text r.parent_gateway.name)
              ∷ ("namespace", text r.parent_gateway.namespace)
              ∷ [])
            ∷ []),
      )
      ∷ (
        "rules",
        array (
            object (
              (
                "matches",
                array (
                    object (
                      ("path", object (("type", text "PathPrefix") ∷ ("value", text "/") ∷ []))
                      ∷ [])
                    ∷ []),
              )
              ∷ ("backendRefs", array (backend_ref r ∷ []))
              ∷ ("timeouts", object (("backendRequest", text "0s") ∷ ("request", text "0s") ∷ []))
              ∷ [])
            ∷ []),
      )
      ∷ [])

  abbrev pub reference_grant_key : Key
  reference_grant_key = record {
    kind = Kind.reference_grant;
    namespace = i.spec.simulator_namespace;
    name = "allow-scheduler-httproute";
  }

  unfoldable pub reference_grant_spec : Value
  reference_grant_spec = object (
      (
        "from",
        array (
            object (
              ("group", text "gateway.networking.k8s.io")
              ∷ ("kind", text "HTTPRoute")
              ∷ ("namespace", text i.spec.scheduler_namespace)
              ∷ [])
            ∷ []),
      )
      ∷ (
        "to",
        array (
            object
              (("group", text "inference.networking.k8s.io") ∷ ("kind", text "InferencePool") ∷ [])
            ∷ object (("group", text "") ∷ ("kind", text "Service") ∷ [])
            ∷ []),
      )
      ∷ [])

  abbrev pub destination_rule_key : Key
  destination_rule_key = record {
    kind = Kind.destination_rule;
    namespace = i.spec.simulator_namespace;
    name = i.spec.proxy_service.name <> "-lb";
  }

  abbrev pool_fields : Option ConnectionPoolConfig → List (String × Value)
  pool_fields none = []
  pool_fields (some p) =
      (
        "connectionPool",
        object (
            (
              "http",
              object (
                  ("http1MaxPendingRequests", int p.http1_max_pending_requests)
                  ∷ ("maxRequestsPerConnection", int p.max_requests_per_connection)
                  ∷ []),
            )
            ∷ []),
      )
      ∷ []

  unfoldable pub destination_rule_spec : LoadBalancingConfig → Value
  destination_rule_spec d = object (
      (
        "host",
        text (
            i.spec.proxy_service.name <> "." <> i.spec.simulator_namespace <> ".svc.cluster.local"),
      )
      ∷ (
        "trafficPolicy",
        object (
            ("loadBalancer", object (("simple", text d.algorithm) ∷ []))
            ∷ pool_fields d.connection_pool),
      )
      ∷ [])
