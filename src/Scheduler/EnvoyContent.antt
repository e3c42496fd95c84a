-- ===== src/Scheduler/EnvoyContent.antt =====
-- The EnvoyFilter that `reconcileEnvoyFilter` of controllers/schedulerinstall_controller.go writes.
use llm_d_scheduler_sim_oper.Base.{
  ℤ, String, true, List, [], ◌∷◌, ◌++◌, Labels, is_empty_map, if◌then◌else◌,
}
use llm_d_scheduler_sim_oper.Api.{SchedulerEnvoyFilterConfig, SchedulerInstall}
use llm_d_scheduler_sim_oper.Kube.Objects.{Kind, Key, GroupVersionKind, Value, text, int, bool}
use llm_d_scheduler_sim_oper.Kube.Json.{object, array, label_object}

abbrev pub envoy_filter_gvk : GroupVersionKind
envoy_filter_gvk = record {
  group = "networking.istio.io";
  version = "v1alpha3";
  kind = "EnvoyFilter";
}

abbrev pub envoy_filter_key : SchedulerInstall → SchedulerEnvoyFilterConfig → Key
envoy_filter_key i f = record {
  kind = Kind.envoy_filter;
  namespace = i.spec.scheduler_namespace;
  name = f.name;
}

abbrev pub processing_mode : Value
processing_mode = object (
    ("request_header_mode", text "SKIP")
    ∷ ("request_body_mode", text "BUFFERED")
    ∷ ("response_header_mode", text "SKIP")
    ∷ ("response_body_mode", text "NONE")
    ∷ [])

-- Replaces the gateway's ext_proc filter.
abbrev pub http_filter_patch : Value
http_filter_patch = object (
    ("applyTo", text "HTTP_FILTER")
    ∷ (
      "match",
      object (
          ("context", text "GATEWAY")
          ∷ (
            "listener",
            object (
                (
                  "filterChain",
                  object (
                      (
                        "filter",
                        object (
                            ("name", text "envoy.filters.network.http_connection_manager")
                            ∷ (
                              "subFilter",
                              object (("name", text "envoy.filters.http.ext_proc") ∷ []),
                            )
                            ∷ []),
                      )
                      ∷ []),
                )
                ∷ []),
          )
          ∷ []),
    )
    ∷ (
      "patch",
      object (
          ("operation", text "REPLACE")
          ∷ (
            "value",
            object (
                ("name", text "envoy.filters.http.ext_proc")
                ∷ (
                  "typed_config",
                  object (
                      (
                        "@type",
                        text
                            "type.googleapis.com/envoy.extensions.filters.http.ext_proc.v3.ExternalProcessor",
                      )
                      ∷ (
                        "grpc_service",
                        object (
                            ("envoy_grpc", object (("cluster_name", text "epp-cluster") ∷ []))
                            ∷ ("timeout", text "2s")
                            ∷ []),
                      )
                      ∷ ("processing_mode", processing_mode)
                      ∷ ("failure_mode_allow", bool true)
                      ∷ []),
                )
                ∷ []),
          )
          ∷ []),
    )
    ∷ [])

-- Where the cluster of the EPP points: one endpoint, by address and port.
abbrev pub lb_endpoints : String → ℤ → Value
lb_endpoints epp_ip epp_port = array (
    object (
      (
        "endpoint",
        object (
            (
              "address",
              object (
                  (
                    "socket_address",
                    object (("address", text epp_ip) ∷ ("port_value", int epp_port) ∷ []),
                  )
                  ∷ []),
            )
            ∷ []),
      )
      ∷ [])
    ∷ [])

-- Adds a static cluster with the address of the EPP's Service.
unfoldable pub cluster_patch : String → ℤ → Value
cluster_patch epp_ip epp_port = object (
    ("applyTo", text "CLUSTER")
    ∷ ("match", object (("context", text "GATEWAY") ∷ []))
    ∷ (
      "patch",
      object (
          ("operation", text "ADD")
          ∷ (
            "value",
            object (
                ("name", text "epp-cluster")
                ∷ ("type", text "STATIC")
                ∷ ("connect_timeout", text "2s")
                ∷ ("lb_policy", text "ROUND_ROBIN")
                ∷ ("http2_protocol_options", object [])
                ∷ (
                  "load_assignment",
                  object (
                      ("cluster_name", text "epp-cluster")
                      ∷ (
                        "endpoints",
                        array (object (("lb_endpoints", lb_endpoints epp_ip epp_port) ∷ []) ∷ []),
                      )
                      ∷ []),
                )
                ∷ []),
          )
          ∷ []),
    )
    ∷ [])

-- Overrides the filter on each route.
abbrev pub http_route_patch : Value
http_route_patch = object (
    ("applyTo", text "HTTP_ROUTE")
    ∷ ("match", object (("context", text "GATEWAY") ∷ []))
    ∷ (
      "patch",
      object (
          ("operation", text "MERGE")
          ∷ (
            "value",
            object (
                (
                  "typed_per_filter_config",
                  object (
                      (
                        "envoy.filters.http.ext_proc",
                        object (
                            (
                              "@type",
                              text
                                  "type.googleapis.com/envoy.extensions.filters.http.ext_proc.v3.ExtProcPerRoute",
                            )
                            ∷ (
                              "overrides",
                              object (
                                  (
                                    "grpc_service",
                                    object (
                                        (
                                          "envoy_grpc",
                                          object (("cluster_name", text "epp-cluster") ∷ []),
                                        )
                                        ∷ []),
                                  )
                                  ∷ ("processing_mode", processing_mode)
                                  ∷ ("failure_mode_allow", bool true)
                                  ∷ []),
                            )
                            ∷ []),
                      )
                      ∷ []),
                )
                ∷ []),
          )
          ∷ []),
    )
    ∷ [])

abbrev selector_fields : Labels → List (String × Value)
selector_fields m =
    if is_empty_map m
    then []
    else ("workloadSelector", object (("labels", label_object m) ∷ [])) ∷ []

unfoldable pub envoy_filter_spec : SchedulerEnvoyFilterConfig → String → ℤ → Value
envoy_filter_spec f epp_ip epp_port = object (
    selector_fields f.workload_selector
    ++ ((
      "configPatches",
      array (http_filter_patch ∷ cluster_patch epp_ip epp_port ∷ http_route_patch ∷ []),
    )
        ∷ []))
