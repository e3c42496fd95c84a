-- ===== src/Scheduler/Traffic.antt =====
-- Whether the HTTPRoute that the SchedulerInstall controller writes may refer to its backend, as the
-- Gateway API decides it: the backend lies in the route's namespace, or a ReferenceGrant in the
-- backend's namespace names the route's kind and namespace and the backend's kind.
use mathlib.Core.Path.{◌∙◌}
use llm_d_scheduler_sim_oper.Base.{
  String, str_eq, str_eq_iff, Bool, true, false, ◌&&◌, ◌||◌, Option, none, some, ◌≡◌, refl,
  if◌then◌else◌,
}
use llm_d_scheduler_sim_oper.Api.{InferencePoolRef, SchedulerRoutingConfig, SchedulerInstall}
use llm_d_scheduler_sim_oper.Kube.Objects.{
  Key, Value, text, arr, obj, Items, no_items, item, Fields, end, field,
}
use llm_d_scheduler_sim_oper.Scheduler.NetworkContent.{
  http_route_key, http_route_spec, backend_ref, service_backend, pool_backend, backend_or_pool,
  reference_grant_key, reference_grant_spec,
}

abbrev find_field : String → Fields → Option Value
find_field k end = none
find_field k (field j v r) = if str_eq j k then some v else find_field k r

-- `value[k]`
abbrev pub get_field : String → Value → Option Value
get_field k (obj fs) = find_field k fs
get_field k _ = none

abbrev text_or_empty : Option Value → String
text_or_empty (some (text t)) = t
text_or_empty _ = ""

-- The text at `k`, or the empty one.
abbrev pub text_field : String → Value → String
text_field k v = text_or_empty (get_field k v)

abbrev items_or_none : Option Value → Items
items_or_none (some (arr l)) = l
items_or_none _ = no_items

abbrev pub items_field : String → Value → Items
items_field k v = items_or_none (get_field k v)

abbrev any_item : (Value → Bool) → Items → Bool
any_item p no_items = false
any_item p (item v r) = p v || any_item p r

abbrev all_items : (Value → Bool) → Items → Bool
all_items p no_items = true
all_items p (item v r) = p v && all_items p r

-- The grant lets routes of the namespace refer to backends like this one.
abbrev pub grants : Value → String → Value → Bool
grants grant namespace ref =
    any_item
      (λ f.
        str_eq (text_field "group" f) "gateway.networking.k8s.io"
        && (str_eq (text_field "kind" f) "HTTPRoute"
            && str_eq (text_field "namespace" f) namespace))
      (items_field "from" grant)
    && any_item
        (λ t.
          str_eq (text_field "group" t) (text_field "group" ref)
          && str_eq (text_field "kind" t) (text_field "kind" ref))
        (items_field "to" grant)

abbrev pub may_refer : Key → Value → Key → Value → Bool
may_refer route ref grant_key grant =
    str_eq (text_field "namespace" ref) route.namespace
    || (str_eq (text_field "namespace" ref) grant_key.namespace && grants grant route.namespace ref)

-- Every backend of every rule.
abbrev pub route_allowed : Key → Value → Key → Value → Bool
route_allowed route spec grant_key grant =
    all_items
      (λ rule.
        all_items (λ ref. may_refer route ref grant_key grant) (items_field "backendRefs" rule))
      (items_field "rules" spec)

abbrev pub namespace_or : SchedulerInstall → Bool → Option InferencePoolRef → String
namespace_or i is_pool none = i.spec.simulator_namespace
namespace_or i is_pool (some p) = if is_pool then p.namespace else i.spec.simulator_namespace

-- Where the backend lies: with the pool, if the route leads to one, and else with the simulator.
abbrev pub backend_namespace : SchedulerInstall → SchedulerRoutingConfig → String
backend_namespace i r = namespace_or i (str_eq r.backend_type "InferencePool") r.inference_pool

and_true : (b : Bool) → (b && true) ≡ b
and_true true = refl
and_true false = refl

or_false : (b : Bool) → (b || false) ≡ b
or_false true = refl
or_false false = refl

pub same_text : (t : String) → str_eq t t ≡ true
same_text t = (str_eq_iff t t).1 refl

-- The route of `i` against the grant of `j`.
module _ (i j : SchedulerInstall) (r : SchedulerRoutingConfig) where
  abbrev granted : String → Bool
  granted namespace =
      str_eq namespace i.spec.scheduler_namespace
      || (str_eq namespace j.spec.simulator_namespace
          && str_eq j.spec.scheduler_namespace i.spec.scheduler_namespace)

  service_allowed :
      may_refer
        (http_route_key i r)
        (service_backend i)
        (reference_grant_key j)
        (reference_grant_spec j)
      ≡ granted i.spec.simulator_namespace
  unfolding reference_grant_spec str_eq
  service_allowed =
      rw
        (
          or_false (str_eq j.spec.scheduler_namespace i.spec.scheduler_namespace),
          and_true (str_eq j.spec.scheduler_namespace i.spec.scheduler_namespace),
        )
        refl

  pool_allowed :
      (p : InferencePoolRef)
      → may_refer
          (http_route_key i r)
          (pool_backend i p)
          (reference_grant_key j)
          (reference_grant_spec j)
        ≡ granted p.namespace
  unfolding reference_grant_spec str_eq
  pool_allowed p =
      rw
        (
          or_false (str_eq j.spec.scheduler_namespace i.spec.scheduler_namespace),
          and_true (str_eq j.spec.scheduler_namespace i.spec.scheduler_namespace),
        )
        refl

  backend_allowed :
      (o : Option InferencePoolRef) (is_pool : Bool)
      → may_refer
          (http_route_key i r)
          (backend_or_pool i is_pool o)
          (reference_grant_key j)
          (reference_grant_spec j)
        ≡ granted (namespace_or i is_pool o)
  backend_allowed none is_pool = service_allowed
  backend_allowed (some p) true = pool_allowed p
  backend_allowed (some p) false = service_allowed

  -- The grant of `j` lets the route of `i` refer to its backend exactly if that lies in the route's
  -- own namespace, or in `j`'s simulator's namespace and the two share the scheduler's namespace.
  pub granted_lem :
      route_allowed
        (http_route_key i r)
        (http_route_spec i r)
        (reference_grant_key j)
        (reference_grant_spec j)
      ≡ (str_eq (backend_namespace i r) i.spec.scheduler_namespace
          || (str_eq (backend_namespace i r) j.spec.simulator_namespace
              && str_eq j.spec.scheduler_namespace i.spec.scheduler_namespace))
  unfolding http_route_spec backend_ref str_eq
  granted_lem =
      and_true _
      ∙ and_true _
      ∙ backend_allowed r.inference_pool (str_eq r.backend_type "InferencePool")

-- The grant that the controller writes allows the route that it writes exactly if the backend lies in
-- the scheduler's or in the simulator's namespace: a route to the proxy Service is always allowed, and
-- one to an inference pool unless the pool lies in a third namespace, where no grant is written.
pub route_allowed_lem :
    (i : SchedulerInstall) (r : SchedulerRoutingConfig)
    → route_allowed
        (http_route_key i r)
        (http_route_spec i r)
        (reference_grant_key i)
        (reference_grant_spec i)
      ≡ (str_eq (backend_namespace i r) i.spec.scheduler_namespace
          || str_eq (backend_namespace i r) i.spec.simulator_namespace)
route_allowed_lem i r =
    granted_lem i i r
    ∙ rw
        (
          same_text i.spec.scheduler_namespace,
          and_true (str_eq (backend_namespace i r) i.spec.simulator_namespace),
        )
        refl
