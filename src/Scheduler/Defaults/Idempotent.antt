-- ===== src/Scheduler/Defaults/Idempotent.antt =====
-- What `setDefaults` of controllers/schedulerinstall_controller.go leaves alone when it runs again.
use mathlib.Core.Path.{ap}
use llm_d_scheduler_sim_oper.Base.{
  ℤ, pos, String, Option, none, some, [], ◌∷◌, Labels, str_eq, str_eq_iff, int_eq_iff, ◌≡◌, refl,
  arith, Bool-cases, inl, inr,
}
use llm_d_scheduler_sim_oper.Api.{
  LoadBalancingConfig, ProxyServiceConfig, SchedulerEppConfig, SchedulerGatewayConfig, GatewayRef,
  SchedulerEnvoyFilterConfig, InferencePoolRef, SchedulerRoutingConfig, SchedulerInstallSpec,
}
use llm_d_scheduler_sim_oper.Scheduler.Defaults.{
  text_or, int_or, labels_or, default_proxy_service, default_epp, default_gateway, default_parent,
  default_pool, default_routing, default_destination_rule, default_envoy_filter, map_option,
  set_defaults,
}

text_or_again : (s d : String) → text_or (text_or s d) d ≡ text_or s d
unfolding text_or
text_or_again s d = ground (arith, str_eq_iff s "", str_eq_iff d "")

int_or_again : (n d : ℤ) → int_or (int_or n d) d ≡ int_or n d
unfolding int_or
int_or_again n d = ground (arith, int_eq_iff n (pos 0), int_eq_iff d (pos 0))

labels_or_again : (m d : Labels) → labels_or (labels_or m d) d ≡ labels_or m d
unfolding labels_or
labels_or_again [] [] = refl
labels_or_again [] (x ∷ d) = refl
labels_or_again (x ∷ m) d = refl

ruleset again_rules = (text_or_again, int_or_again, labels_or_again)

proxy_again :
    (p : ProxyServiceConfig)
    → default_proxy_service (default_proxy_service p) ≡ default_proxy_service p
unfolding default_proxy_service
proxy_again p = simp again_rules

epp_again :
    (n : String) (e : SchedulerEppConfig) → default_epp n (default_epp n e) ≡ default_epp n e
unfolding default_epp
epp_again n e = simp again_rules

gateway_again :
    (g : SchedulerGatewayConfig) → default_gateway (default_gateway g) ≡ default_gateway g
unfolding default_gateway
gateway_again g = simp again_rules

parent_again :
    (g : Option SchedulerGatewayConfig) (n : String) (r : GatewayRef)
    → default_parent g n (default_parent g n r) ≡ default_parent g n r
unfolding default_parent
parent_again none n r = simp again_rules
parent_again (some g) n r = simp again_rules

pool_again :
    (e : Option SchedulerEppConfig) (n : String) (p : InferencePoolRef)
    → default_pool e n (default_pool e n p) ≡ default_pool e n p
unfolding default_pool
pool_again none n p = simp again_rules
pool_again (some e) n p = simp again_rules

rule_again :
    (d : LoadBalancingConfig)
    → default_destination_rule (default_destination_rule d) ≡ default_destination_rule d
unfolding default_destination_rule
rule_again d = simp again_rules

filter_again :
    (g : Option SchedulerGatewayConfig) (f : SchedulerEnvoyFilterConfig)
    → default_envoy_filter g (default_envoy_filter g f) ≡ default_envoy_filter g f
unfolding default_envoy_filter
filter_again none f = simp again_rules
filter_again (some g) f = simp again_rules

routing_again :
    (e : Option SchedulerEppConfig) (g : Option SchedulerGatewayConfig) (n m : String)
    (r : SchedulerRoutingConfig)
    → default_routing e g n m (default_routing e g n m r) ≡ default_routing e g n m r
unfolding default_routing
routing_again e g n m r =
    elim (Bool-cases (str_eq (text_or r.backend_type "Service") "InferencePool")) [
      | inl pool ↦ simp (again_rules, pool, pool_again, parent_again)
      | inr other ↦ simp (again_rules, other, parent_again)
    ]

map_option_again :
    {A : Type 0} (f : A → A) (o : Option A)
    → ((a : A) → f (f a) ≡ f a)
    → map_option f (map_option f o) ≡ map_option f o
map_option_again f none h = refl
map_option_again f (some a) h = ap some (h a)

-- Filling in the defaults a second time changes nothing, in whichever namespace and whatever the
-- spec: each default depends only on fields that the first pass leaves as they are.
pub set_defaults_idempotent :
    (namespace : String) (s : SchedulerInstallSpec)
    → set_defaults namespace (set_defaults namespace s) ≡ set_defaults namespace s
unfolding set_defaults
set_defaults_idempotent namespace s = simp (
  again_rules,
  proxy_again,
  map_option_again _ s.epp (epp_again s.simulator_namespace),
  map_option_again _ s.gateway gateway_again,
  map_option_again _ s.destination_rule rule_again,
  map_option_again _ s.envoy_filter (filter_again (map_option default_gateway s.gateway)),
  map_option_again _ s.routing (
      routing_again (map_option (default_epp s.simulator_namespace) s.epp)
        (map_option default_gateway s.gateway) (text_or s.scheduler_namespace namespace)
        s.simulator_namespace),
)
