-- ===== src/Scheduler/Plugins.antt =====
-- The plugin configuration that `reconcileEPPConfigMap` writes, by profile.
use llm_d_scheduler_sim_oper.Base.{String, ◌<>◌, List, [], ◌∷◌, str_eq, if◌then◌else◌}

abbrev pub lines : List String → String
lines [] = ""
lines (l ∷ ls) = l <> "\n" <> lines ls

unfoldable pub default_plugins : String
default_plugins = lines (
    "apiVersion: inference.networking.x-k8s.io/v1alpha1" ∷ "kind: EndpointPickerConfig" ∷ "plugins:"
    ∷ "- type: load-aware-scorer" ∷ "- type: prefix-cache-scorer" ∷ "  parameters:"
    ∷ "    hashBlockSize: 5" ∷ "    maxPrefixBlocksToMatch: 256" ∷ "    lruCapacityPerServer: 31250"
    ∷ "- type: kv-cache-utilization-scorer" ∷ "- type: decode-filter" ∷ "- type: max-score-picker"
    ∷ "- type: single-profile-handler" ∷ "schedulingProfiles:" ∷ "- name: default" ∷ "  plugins:"
    ∷ "  - pluginRef: decode-filter" ∷ "  - pluginRef: max-score-picker"
    ∷ "  - pluginRef: load-aware-scorer" ∷ "    weight: 1" ∷ "  - pluginRef: prefix-cache-scorer"
    ∷ "    weight: 2" ∷ "  - pluginRef: kv-cache-utilization-scorer" ∷ "    weight: 1" ∷ [])

unfoldable pub proxy_performance_plugins : String
proxy_performance_plugins = lines (
    "apiVersion: inference.networking.x-k8s.io/v1alpha1" ∷ "kind: EndpointPickerConfig" ∷ "plugins:"
    ∷ "- type: active-request-scorer" ∷ "  parameters:" ∷ "    requestTimeout: \"2m\""
    ∷ "- type: max-score-picker" ∷ "- type: single-profile-handler" ∷ "schedulingProfiles:"
    ∷ "- name: default" ∷ "  plugins:" ∷ "  - pluginRef: max-score-picker"
    ∷ "  - pluginRef: active-request-scorer" ∷ "    weight: 1" ∷ [])

unfoldable pub by_backend_plugins : String
by_backend_plugins = lines (
    "apiVersion: inference.networking.x-k8s.io/v1alpha1" ∷ "kind: EndpointPickerConfig" ∷ "plugins:"
    ∷ "- type: active-request-scorer" ∷ "  parameters:" ∷ "    requestTimeout: \"2m\""
    ∷ "- type: by-label-selector" ∷ "  name: by-kv-backend" ∷ "  parameters:" ∷ "    matchLabels:"
    ∷ "      llm-d.ai/kv-backend: nvlink" ∷ "- type: max-score-picker"
    ∷ "- type: single-profile-handler" ∷ "schedulingProfiles:" ∷ "- name: default" ∷ "  plugins:"
    ∷ "  - pluginRef: by-kv-backend" ∷ "  - pluginRef: max-score-picker"
    ∷ "  - pluginRef: active-request-scorer" ∷ "    weight: 1" ∷ [])

-- Any other profile gets the default.
unfoldable pub plugins_config : String → String
plugins_config profile =
    if str_eq profile "proxy-performance"
    then proxy_performance_plugins
    else if str_eq profile "proxy-performance-by-backend"
    then by_backend_plugins
    else default_plugins
