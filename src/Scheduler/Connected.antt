-- ===== src/Scheduler/Connected.antt =====
-- How a request gets from the Gateway to the simulated pods through what the SchedulerInstall
-- controller has written: the references in the stored HTTPRoute, followed in the cluster.
use mathlib.Core.Path.{◌∙◌}
use llm_d_scheduler_sim_oper.Base.{
  ℕ, int_eq_iff, String, str_eq, Bool, true, false, ◌||◌, Option, none, some, ◌≡◌, ◌≢◌, refl,
}
use llm_d_scheduler_sim_oper.Api.{
  InferencePoolRef, SchedulerGatewayConfig, SchedulerRoutingConfig, SchedulerEppConfig,
  SchedulerInstallSpec, SchedulerInstall,
}
use llm_d_scheduler_sim_oper.Kube.Objects.{Kind, Object, Body}
use llm_d_scheduler_sim_oper.Kube.Calls.{ok}
use llm_d_scheduler_sim_oper.Kube.Client.{Client, IsLawful, gvk_supported}
use llm_d_scheduler_sim_oper.Scheduler.Defaults.{
  text_or, map_option, default_epp, default_gateway, default_parent, default_routing, set_defaults,
}
use llm_d_scheduler_sim_oper.Scheduler.EppContent.{epp_key}
use llm_d_scheduler_sim_oper.Scheduler.NetworkContent.{
  gateway_gvk, http_route_gvk, reference_grant_gvk, http_route_spec, backend_ref, service_backend,
  backend_or_pool, proxy_key, reference_grant_spec,
}
use llm_d_scheduler_sim_oper.Scheduler.References.{exposes, HasParents, HasBackends, Connected}
use llm_d_scheduler_sim_oper.Scheduler.Traffic.{
  route_allowed_lem, same_text, backend_namespace, namespace_or,
}
use llm_d_scheduler_sim_oper.Scheduler.Reconcile.{reconcile, with_defaults}
use llm_d_scheduler_sim_oper.Scheduler.Reconcile.Outcome.{reconcile-Converged}
use llm_d_scheduler_sim_oper.Scheduler.Reconcile.Converged.{Converged, Enabled, IsProxyService}

or_true : (b : Bool) → (b || true) ≡ true
or_true true = refl
or_true false = refl

-- The route leads to the proxy Service unless it is one to a pool.
to_service :
    (i : SchedulerInstall) (r : SchedulerRoutingConfig)
    → str_eq r.backend_type "InferencePool" ≡ false
    → (backend_ref i r ≡ service_backend i) × (backend_namespace i r ≡ i.spec.simulator_namespace)
unfolding backend_ref
to_service i r e = go r.inference_pool (str_eq r.backend_type "InferencePool") e
  where
    go :
        (o : Option InferencePoolRef) (is_pool : Bool)
        → is_pool ≡ false
        → (backend_or_pool i is_pool o ≡ service_backend i)
          × (namespace_or i is_pool o ≡ i.spec.simulator_namespace)
    go none is_pool off = (refl, refl)
    go (some p) is_pool off = rw off (refl, refl)

IsProxyService-exposes :
    (C : Client) (i : SchedulerInstall) (b : Body Kind.service)
    → IsProxyService C i b
    → exposes i.spec.proxy_service.port b.spec.ports ≡ true
IsProxyService-exposes C i b h =
    rw (h.ports, (int_eq_iff i.spec.proxy_service.port i.spec.proxy_service.port).1 refl) refl

module _ {C : Client} {i : SchedulerInstall} {now : ℕ} {s : C.State} (c : Converged C i now s)
    (r : SchedulerRoutingConfig) where
  parents_there :
      (g : SchedulerGatewayConfig)
      → Enabled C i i.spec.gateway (λ g. g.enabled) g
      → gvk_supported C gateway_gvk ≡ true
      → r.parent_gateway ≡ record { name = g.name; namespace = i.spec.scheduler_namespace }
      → HasParents C i r s g (http_route_spec i r)
  unfolding http_route_spec str_eq
  parents_there g on supported parent = rw parent (c.gateway g on supported, tt)

  backends_there :
      str_eq r.backend_type "InferencePool" ≡ false → HasBackends C i r s (http_route_spec i r)
  unfolding http_route_spec str_eq
  backends_there service = rw (to_service i r service).0 (
    (
      record {
        object = c.proxy.object;
        stored = c.proxy.stored;
        meets = IsProxyService-exposes C i _ c.proxy.meets;
      },
      tt,
    ),
    tt,
  )

  Converged-Connected :
      (g : SchedulerGatewayConfig)
      → Enabled C i i.spec.gateway (λ g. g.enabled) g
      → Enabled C i i.spec.routing (λ r. r.enabled) r
      → gvk_supported C gateway_gvk ≡ true
      → gvk_supported C http_route_gvk ≡ true
      → gvk_supported C reference_grant_gvk ≡ true
      → r.parent_gateway ≡ record { name = g.name; namespace = i.spec.scheduler_namespace }
      → str_eq r.backend_type "InferencePool" ≡ false
      → Connected C i r s g
  Converged-Connected g on routed has_gateway has_route has_grant parent service =
      let granted = c.grant r routed has_grant in
      record {
        route_spec = http_route_spec i r;
        route = c.route r routed has_route;
        parents = parents_there g on has_gateway parent;
        backends = backends_there service;
        grant_spec = reference_grant_spec i;
        grant = record {
          object = granted.object;
          stored = granted.stored;
          meets = granted.meets.0;
        };
        allowed =
            route_allowed_lem i r
            ∙ rw ((to_service i r service).1, same_text i.spec.simulator_namespace) (or_true _);
      }

-- The user asks for the route and the gateway, and leaves the parent and the backend to the defaults.
pub record AsksForRoute (spec : SchedulerInstallSpec) (g : SchedulerGatewayConfig)
    (r : SchedulerRoutingConfig) : Type 0 where
  pub gateway : spec.gateway ≡ some g
  pub gateway_enabled : g.enabled ≡ true
  pub routing : spec.routing ≡ some r
  pub routing_enabled : r.enabled ≡ true
  pub parent : r.parent_gateway ≡ record { name = ""; namespace = "" }
  pub backend_type : r.backend_type ≡ ""

-- The routing, with the defaults that it has in a spec.
abbrev pub routing_of :
    String → SchedulerInstallSpec → SchedulerRoutingConfig → SchedulerRoutingConfig
routing_of namespace spec r =
    default_routing (map_option (default_epp spec.simulator_namespace) spec.epp)
      (map_option default_gateway spec.gateway) (text_or spec.scheduler_namespace namespace)
      spec.simulator_namespace r

-- Let a SchedulerInstall enable its gateway and its routing and leave the route's parent and backend
-- to the defaults, on a cluster that serves the Gateway API. After a reconcile that returns no error
-- every parent of the stored HTTPRoute is the Gateway that is stored, every backend of it is a port
-- of a Service that is stored, and the stored ReferenceGrant allows the route, where the Services of
-- the EPP and of the proxy are two objects.
pub reconcile-Connected :
    {C : Client} (L : IsLawful C) (now : ℕ) (namespace name : String)
    (o : Object Kind.scheduler_install) (s : C.State) (g : SchedulerGatewayConfig)
    (r : SchedulerRoutingConfig)
    → C.get s (record { kind = Kind.scheduler_install; namespace = namespace; name = name }) ≡ ok o
    → ((e : SchedulerEppConfig)
        → (with_defaults namespace name o.body.spec).spec.epp ≡ some e
        → proxy_key (with_defaults namespace name o.body.spec)
          ≢ epp_key (with_defaults namespace name o.body.spec) e Kind.service)
    → (reconcile C now namespace name s).0 ≡ ok tt
    → AsksForRoute o.body.spec g r
    → gvk_supported C gateway_gvk ≡ true
    → gvk_supported C http_route_gvk ≡ true
    → gvk_supported C reference_grant_gvk ≡ true
    → Connected C
        (with_defaults namespace name o.body.spec)
        (routing_of namespace o.body.spec r)
        (reconcile C now namespace name s).1
        (default_gateway g)
unfolding set_defaults default_routing default_parent default_gateway text_or str_eq
reconcile-Connected L now namespace name o s g r there separate done a has_gateway has_route
      has_grant =
    Converged-Connected (reconcile-Converged L now namespace name o s there separate done) _ _
      (rw a.gateway refl, a.gateway_enabled) (rw a.routing refl, a.routing_enabled) has_gateway
      has_route has_grant (rw (a.gateway, a.parent) refl) (rw a.backend_type refl)
