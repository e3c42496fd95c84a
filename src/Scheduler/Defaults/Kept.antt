-- ===== src/Scheduler/Defaults/Kept.antt =====
-- That `setDefaults` of controllers/schedulerinstall_controller.go overwrites no field that is set.
use llm_d_scheduler_sim_oper.Base.{
  String, Option, none, some, Bool, true, false, ◌≡◌, ◌⊎◌, inl, inr, refl, if◌then◌else◌,
}
use llm_d_scheduler_sim_oper.Api.{
  SchedulerEppConfig, SchedulerGatewayConfig, SchedulerEnvoyFilterConfig, GatewayRef,
  InferencePoolRef, ConnectionPoolConfig, LoadBalancingConfig, SchedulerRoutingConfig,
  SchedulerInstallSpec,
}
use llm_d_scheduler_sim_oper.Scheduler.Defaults.{
  default_parent, default_pool, pool_or_empty, default_routing, default_destination_rule,
  default_envoy_filter, pool_settings_or, map_option, set_defaults,
}
use llm_d_scheduler_sim_oper.Scheduler.Defaults.KeptParts.{
  KeptText, KeptLabels, KeptProxy, KeptEpp, KeptGateway, text_kept, labels_kept, proxy_kept,
  epp_kept, gateway_kept,
}

pub record KeptPool (p q : InferencePoolRef) : Type 0 where
  pub name : KeptText p.name q.name
  pub namespace : KeptText p.namespace q.namespace
  pub port : q.port ≡ p.port

pub record KeptRouting (r q : SchedulerRoutingConfig) : Type 0 where
  pub enabled : q.enabled ≡ r.enabled
  pub backend_type : KeptText r.backend_type q.backend_type
  pub http_route_name : KeptText r.http_route_name q.http_route_name
  pub parent_name : KeptText r.parent_gateway.name q.parent_gateway.name
  pub parent_namespace : KeptText r.parent_gateway.namespace q.parent_gateway.namespace
  pub pool :
      (r.inference_pool ≡ none)
      ⊎ ((p q' : InferencePoolRef) × (r.inference_pool ≡ some p)
          × (q.inference_pool ≡ some q')
          × KeptPool p q')

pub record KeptRule (d e : LoadBalancingConfig) : Type 0 where
  pub enabled : e.enabled ≡ d.enabled
  pub algorithm : KeptText d.algorithm e.algorithm
  pub connection_pool : (d.connection_pool ≡ none) ⊎ (e.connection_pool ≡ d.connection_pool)

pub record KeptFilter (f g : SchedulerEnvoyFilterConfig) : Type 0 where
  pub enabled : g.enabled ≡ f.enabled
  pub name : KeptText f.name g.name
  pub selector : KeptLabels f.workload_selector g.workload_selector

-- Both are there and related, or neither is there.
pub data Both {A : Type 0} (R : A → A → Type 0) : Option A → Option A → Type 0 where
  neither : Both R none none
  each : {a b : A} → R a b → Both R (some a) (some b)

pub record IsKept (s t : SchedulerInstallSpec) : Type 0 where
  pub scheduler_namespace : KeptText s.scheduler_namespace t.scheduler_namespace
  pub simulator_namespace : t.simulator_namespace ≡ s.simulator_namespace
  pub proxy_service : KeptProxy s.proxy_service t.proxy_service
  pub epp : Both KeptEpp s.epp t.epp
  pub gateway : Both KeptGateway s.gateway t.gateway
  pub routing : Both KeptRouting s.routing t.routing
  pub destination_rule : Both KeptRule s.destination_rule t.destination_rule
  pub envoy_filter : Both KeptFilter s.envoy_filter t.envoy_filter

map_option-Both :
    {A : Type 0} (R : A → A → Type 0) (f : A → A) (o : Option A)
    → ((a : A) → R a (f a))
    → Both R o (map_option f o)
map_option-Both R f none r = neither
map_option-Both R f (some a) r = each (r a)

pool_kept :
    (epp : Option SchedulerEppConfig) (n : String) (p : InferencePoolRef)
    → KeptPool p (default_pool epp n p)
unfolding default_pool
pool_kept none n p = record { name = inr refl; namespace = text_kept p.namespace _; port = refl }
pool_kept (some e) n p = record {
  name = text_kept p.name _;
  namespace = text_kept p.namespace _;
  port = refl;
}

parent_kept :
    (gateway : Option SchedulerGatewayConfig) (m : String) (r : GatewayRef)
    → KeptText r.name (default_parent gateway m r).name
      × KeptText r.namespace (default_parent gateway m r).namespace
unfolding default_parent
parent_kept none m r = (inr refl, text_kept r.namespace _)
parent_kept (some g) m r = (text_kept r.name _, text_kept r.namespace _)

routed_pool_kept :
    (epp : Option SchedulerEppConfig) (n : String) (is_pool : Bool) (o : Option InferencePoolRef)
    → (o ≡ none)
      ⊎ ((p q : InferencePoolRef) × (o ≡ some p)
          × ((if is_pool then some (default_pool epp n (pool_or_empty o)) else o) ≡ some q)
          × KeptPool p q)
routed_pool_kept epp n is_pool none = inl refl
routed_pool_kept epp n true (some p) = inr (p, default_pool epp n p, refl, refl, pool_kept epp n p)
routed_pool_kept epp n false (some p) =
    inr (p, p, refl, refl, record { name = inr refl; namespace = inr refl; port = refl })

routing_kept :
    (epp : Option SchedulerEppConfig) (gateway : Option SchedulerGatewayConfig) (m n : String)
    (r : SchedulerRoutingConfig)
    → KeptRouting r (default_routing epp gateway m n r)
unfolding default_routing
routing_kept epp gateway m n r =
    let parent = parent_kept gateway m r.parent_gateway in
    record {
      enabled = refl;
      backend_type = text_kept r.backend_type _;
      http_route_name = text_kept r.http_route_name _;
      parent_name = parent.0;
      parent_namespace = parent.1;
      pool = routed_pool_kept epp n _ r.inference_pool;
    }

settings_kept : (o : Option ConnectionPoolConfig) → (o ≡ none) ⊎ (some (pool_settings_or o) ≡ o)
settings_kept none = inl refl
settings_kept (some p) = inr refl

rule_kept : (d : LoadBalancingConfig) → KeptRule d (default_destination_rule d)
unfolding default_destination_rule
rule_kept d = record {
  enabled = refl;
  algorithm = text_kept d.algorithm _;
  connection_pool = settings_kept d.connection_pool;
}

filter_kept :
    (gateway : Option SchedulerGatewayConfig) (f : SchedulerEnvoyFilterConfig)
    → KeptFilter f (default_envoy_filter gateway f)
unfolding default_envoy_filter
filter_kept none f = record { enabled = refl; name = text_kept f.name _; selector = inr refl }
filter_kept (some g) f = record {
  enabled = refl;
  name = text_kept f.name _;
  selector = labels_kept f.workload_selector _;
}

pub set_defaults-IsKept :
    (namespace : String) (s : SchedulerInstallSpec) → IsKept s (set_defaults namespace s)
unfolding set_defaults
set_defaults-IsKept namespace s = record {
  scheduler_namespace = text_kept s.scheduler_namespace namespace;
  simulator_namespace = refl;
  proxy_service = proxy_kept s.proxy_service;
  epp = map_option-Both KeptEpp _ s.epp (epp_kept s.simulator_namespace);
  gateway = map_option-Both KeptGateway _ s.gateway gateway_kept;
  routing = map_option-Both KeptRouting _ s.routing (routing_kept _ _ _ _);
  destination_rule = map_option-Both KeptRule _ s.destination_rule rule_kept;
  envoy_filter = map_option-Both KeptFilter _ s.envoy_filter (filter_kept _);
}
