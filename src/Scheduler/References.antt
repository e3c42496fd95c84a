-- ===== src/Scheduler/References.antt =====
-- The references in an HTTPRoute, followed in the cluster.
use llm_d_scheduler_sim_oper.Base.{
  ℤ, pos, int_eq, String, Bool, true, false, ◌||◌, Option, some, List, [], ◌∷◌, ◌≡◌,
}
use llm_d_scheduler_sim_oper.Api.{SchedulerGatewayConfig, SchedulerRoutingConfig, SchedulerInstall}
use llm_d_scheduler_sim_oper.Kube.Objects.{
  Kind, Key, Value, int, Items, no_items, item, ServicePort,
}
use llm_d_scheduler_sim_oper.Kube.Client.{Client, Holds}
use llm_d_scheduler_sim_oper.Scheduler.NetworkContent.{
  gateway_spec, http_route_key, reference_grant_key,
}
use llm_d_scheduler_sim_oper.Scheduler.Traffic.{get_field, text_field, items_field, route_allowed}

-- The object that a reference names.
abbrev pub ref_key : Kind → Value → Key
ref_key k ref = record {
  kind = k;
  namespace = text_field "namespace" ref;
  name = text_field "name" ref;
}

abbrev int_or_zero : Option Value → ℤ
int_or_zero (some (int n)) = n
int_or_zero _ = pos 0

abbrev pub int_field : String → Value → ℤ
int_field k v = int_or_zero (get_field k v)

abbrev pub Each : (Value → Type 0) → Items → Type 0
Each P no_items = Unit {0}
Each P (item v r) = P v × Each P r

abbrev pub exposes : ℤ → List ServicePort → Bool
exposes n [] = false
exposes n (p ∷ ps) = int_eq p.port n || exposes n ps

module _ (C : Client) (i : SchedulerInstall) (r : SchedulerRoutingConfig) (s : C.State) where
  -- Every parent of the route is a Gateway that is there.
  abbrev pub HasParents : SchedulerGatewayConfig → Value → Type 0
  HasParents g spec =
      Each (λ ref. Holds C (ref_key Kind.gateway ref) (λ b. b.spec ≡ some (gateway_spec i g)) s)
        (items_field "parentRefs" spec)

  -- Every backend of every rule is a port of a Service that is there.
  abbrev pub HasBackends : Value → Type 0
  HasBackends spec =
      Each
        (λ rule.
          Each
            (λ ref.
              Holds C (ref_key Kind.service ref)
                (λ b. exposes (int_field "port" ref) b.spec.ports ≡ true) s)
            (items_field "backendRefs" rule))
        (items_field "rules" spec)

  -- The route that is stored leads from the Gateway to the backends, and the grant that is stored
  -- allows it to.
  pub record Connected (g : SchedulerGatewayConfig) : Type 0 where
    pub route_spec : Value
    pub route : Holds C (http_route_key i r) (λ b. b.spec ≡ some route_spec) s
    pub parents : HasParents g route_spec
    pub backends : HasBackends route_spec
    pub grant_spec : Value
    pub grant : Holds C (reference_grant_key i) (λ b. b.spec ≡ some grant_spec) s
    pub allowed :
        route_allowed (http_route_key i r) route_spec (reference_grant_key i) grant_spec ≡ true
