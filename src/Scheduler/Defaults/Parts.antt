-- ===== src/Scheduler/Defaults/Parts.antt =====
-- What `setDefaults` of controllers/schedulerinstall_controller.go guarantees of each part of the spec it
-- leaves.
use mathlib.Core.Path.{subst}
use mathlib.Core.Option.{some-injective}
use llm_d_scheduler_sim_oper.Base.{
  ℤ, pos, String, Option, none, some, [], ◌∷◌, Labels, is_empty_map, str_eq_iff, int_eq_iff, false,
  ◌≡◌, ◌≢◌, refl, sym, arith, suc, ℕ,
}
use llm_d_scheduler_sim_oper.Api.{
  ProxyServiceConfig, SchedulerEppConfig, SchedulerGatewayConfig, SchedulerEnvoyFilterConfig,
  InferencePoolRef, GatewayRef, ConnectionPoolConfig, LoadBalancingConfig, SchedulerRoutingConfig,
}
use llm_d_scheduler_sim_oper.Scheduler.Defaults.{
  text_or, int_or, labels_or, default_proxy_service, default_epp, default_gateway, default_parent,
  default_pool, pool_settings_or, default_destination_rule, default_envoy_filter,
}

int_or_filled : (n : ℤ) (k : ℕ) → int_or n (pos (suc k)) ≢ pos 0
unfolding int_or
int_or_filled n k = ground (arith, int_eq_iff n (pos 0))

pub text_or_filled : (s d : String) → d ≢ "" → text_or s d ≢ ""
unfolding text_or
text_or_filled s d ne = ground (arith, str_eq_iff s "")

labels_or_filled : (m d : Labels) → is_empty_map d ≡ false → is_empty_map (labels_or m d) ≡ false
unfolding labels_or
labels_or_filled [] d h = h
labels_or_filled (x ∷ m) d h = refl

pub record IsFilledProxy (p : ProxyServiceConfig) : Type 0 where
  pub name : p.name ≢ ""
  pub port : p.port ≢ pos 0
  pub target_port : p.target_port ≢ pos 0
  pub selector : is_empty_map p.selector ≡ false

pub record IsFilledEpp (e : SchedulerEppConfig) : Type 0 where
  pub name : e.name ≢ ""
  pub image : e.image ≢ ""
  pub replicas : e.replicas ≢ pos 0
  pub port : e.port ≢ pos 0
  pub pool_name : e.pool_name ≢ ""
  pub pool_namespace : e.pool_namespace ≢ ""
  pub config_profile : e.config_profile ≢ ""

pub record IsFilledGateway (g : SchedulerGatewayConfig) : Type 0 where
  pub name : g.name ≢ ""
  pub class_name : g.class_name ≢ ""
  pub listener_port : g.listener_port ≢ pos 0
  pub listener_protocol : g.listener_protocol ≢ ""

-- The parent takes its name from a gateway and the pool its name from an EPP, where there is one.
pub record IsFilledRouting (epp : Option SchedulerEppConfig)
    (gateway : Option SchedulerGatewayConfig) (r : SchedulerRoutingConfig) : Type 0 where
  pub backend_type : r.backend_type ≢ ""
  pub http_route_name : r.http_route_name ≢ ""
  pub parent_namespace : r.parent_gateway.namespace ≢ ""
  pub parent_name : (g : SchedulerGatewayConfig) → gateway ≡ some g → r.parent_gateway.name ≢ ""
  pub pool :
      r.backend_type ≡ "InferencePool"
      → (p : InferencePoolRef) × (r.inference_pool ≡ some p)
        × (p.namespace ≢ "")
        × ((e : SchedulerEppConfig) → epp ≡ some e → p.name ≢ "")

pub record IsFilledRule (d : LoadBalancingConfig) : Type 0 where
  pub algorithm : d.algorithm ≢ ""
  pub connection_pool : (p : ConnectionPoolConfig) × (d.connection_pool ≡ some p)

pub record IsFilledFilter (gateway : Option SchedulerGatewayConfig) (f : SchedulerEnvoyFilterConfig)
    : Type 0 where
  pub name : f.name ≢ ""
  pub selector :
      (g : SchedulerGatewayConfig) → gateway ≡ some g → is_empty_map f.workload_selector ≡ false

target_port_filled : (t p : ℤ) → int_or t (int_or p (pos 8200)) ≢ pos 0
unfolding int_or
target_port_filled t p = ground (arith, int_eq_iff t (pos 0), int_eq_iff p (pos 0))

pub proxy_IsFilled : (p : ProxyServiceConfig) → IsFilledProxy (default_proxy_service p)
unfolding default_proxy_service
proxy_IsFilled p = record {
  name = text_or_filled p.name _ (λ x. cc);
  port = int_or_filled p.port 8199;
  target_port = target_port_filled p.target_port p.port;
  selector = labels_or_filled p.selector _ refl;
}

pub epp_IsFilled : (n : String) (e : SchedulerEppConfig) → n ≢ "" → IsFilledEpp (default_epp n e)
unfolding default_epp
epp_IsFilled n e ne = record {
  name = text_or_filled e.name _ (λ x. cc);
  image = text_or_filled e.image _ (λ x. cc);
  replicas = int_or_filled e.replicas 0;
  port = int_or_filled e.port 9001;
  pool_name = text_or_filled e.pool_name _ (λ x. cc);
  pool_namespace = text_or_filled e.pool_namespace n ne;
  config_profile = text_or_filled e.config_profile _ (λ x. cc);
}

pub gateway_IsFilled : (g : SchedulerGatewayConfig) → IsFilledGateway (default_gateway g)
unfolding default_gateway
gateway_IsFilled g = record {
  name = text_or_filled g.name _ (λ x. cc);
  class_name = text_or_filled g.class_name _ (λ x. cc);
  listener_port = int_or_filled g.listener_port 79;
  listener_protocol = text_or_filled g.listener_protocol _ (λ x. cc);
}

pub rule_IsFilled : (d : LoadBalancingConfig) → IsFilledRule (default_destination_rule d)
unfolding default_destination_rule
rule_IsFilled d = record {
  algorithm = text_or_filled d.algorithm _ (λ x. cc);
  connection_pool = (pool_settings_or d.connection_pool, refl);
}

pub filter_IsFilled :
    (gateway : Option SchedulerGatewayConfig) (f : SchedulerEnvoyFilterConfig)
    → IsFilledFilter gateway (default_envoy_filter gateway f)
unfolding default_envoy_filter
filter_IsFilled none f = record {
  name = text_or_filled f.name _ (λ x. cc);
  selector = λ g there. cc;
}
filter_IsFilled (some g) f = record {
  name = text_or_filled f.name _ (λ x. cc);
  selector = λ g' there. labels_or_filled f.workload_selector _ refl;
}

pub pool_namespace_filled :
    (epp : Option SchedulerEppConfig) (n : String) (p : InferencePoolRef)
    → n ≢ ""
    → (default_pool epp n p).namespace ≢ ""
unfolding default_pool
pool_namespace_filled none n p ne = text_or_filled p.namespace n ne
pool_namespace_filled (some e) n p ne =
    text_or_filled p.namespace _ (ground (arith, str_eq_iff e.pool_namespace ""))

pub pool_name_filled :
    (epp : Option SchedulerEppConfig) (n : String) (p : InferencePoolRef) (e : SchedulerEppConfig)
    → IsFilledEpp e
    → epp ≡ some e
    → (default_pool epp n p).name ≢ ""
unfolding default_pool
pool_name_filled none n p e filled there = cc
pool_name_filled (some e') n p e filled there = text_or_filled p.name e'.pool_name (
    subst (λ (x : SchedulerEppConfig). x.pool_name ≢ "") (sym (some-injective _ _ there))
      filled.pool_name)

pub parent_namespace_filled :
    (gateway : Option SchedulerGatewayConfig) (m : String) (r : GatewayRef)
    → m ≢ ""
    → (default_parent gateway m r).namespace ≢ ""
unfolding default_parent
parent_namespace_filled none m r ne = text_or_filled r.namespace m ne
parent_namespace_filled (some g) m r ne = text_or_filled r.namespace m ne

pub parent_name_filled :
    (gateway : Option SchedulerGatewayConfig) (m : String) (r : GatewayRef)
    (g : SchedulerGatewayConfig)
    → IsFilledGateway g
    → gateway ≡ some g
    → (default_parent gateway m r).name ≢ ""
unfolding default_parent
parent_name_filled none m r g filled there = cc
parent_name_filled (some g') m r g filled there = text_or_filled r.name g'.name (
    subst (λ (x : SchedulerGatewayConfig). x.name ≢ "") (sym (some-injective _ _ there))
      filled.name)
