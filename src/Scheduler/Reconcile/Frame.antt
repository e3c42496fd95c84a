-- ===== src/Scheduler/Reconcile/Frame.antt =====
-- What a `SchedulerInstall` may touch: the objects of its enabled parts, and itself.
use llm_d_scheduler_sim_oper.Base.{
  ℕ, String, Bool, true, Option, none, some, List, [], ◌∷◌, ◌≡◌, refl, ◌≢◌,
}
use llm_d_scheduler_sim_oper.Api.{
  SchedulerEnvoyFilterConfig, SchedulerEppConfig, SchedulerInstall, SchedulerRoutingConfig,
}
use llm_d_scheduler_sim_oper.Kube.Objects.{Kind, Key, Object}
use llm_d_scheduler_sim_oper.Kube.Calls.{
  Result, ok, err, not_found, failed, Call, ◌>>=◌, on_enabled,
}
use llm_d_scheduler_sim_oper.Kube.Triples.{
  Keeps, Keeps-seq, Keeps-branch, Keeps-fail, Keeps-on_enabled, keeps_rules,
}
use llm_d_scheduler_sim_oper.Kube.Client.{Client, IsLawful}
use llm_d_scheduler_sim_oper.Kube.Client.Writes.{
  Reads, Misses, nil, cons, Misses-head, enabled_keys, Misses-enabled, write_rules,
}
use llm_d_scheduler_sim_oper.Scheduler.EppContent.{owner_key}
use llm_d_scheduler_sim_oper.Scheduler.Epp.Frame.{epp_keys, reconcile_scheduler_epp-Keeps}
use llm_d_scheduler_sim_oper.Scheduler.NetworkContent.{
  proxy_key, gateway_key, http_route_key, reference_grant_key, destination_rule_key,
}
use llm_d_scheduler_sim_oper.Scheduler.Network.Frame.{
  reconcile_proxy_service-Keeps, reconcile_gateway-Keeps, reconcile_http_route-Keeps,
  reconcile_reference_grant-Keeps, reconcile_destination_rule-Keeps,
}
use llm_d_scheduler_sim_oper.Scheduler.EnvoyContent.{envoy_filter_key}
use llm_d_scheduler_sim_oper.Scheduler.Reconcile.{
  reconcile_envoy_filter, delete_envoy_filter, filter_with_epp, filter_step, routing_step,
  update_status, reconcile_install, checked, fetched, with_defaults, reconcile,
}

abbrev pub filter_keys : SchedulerInstall → Option SchedulerEnvoyFilterConfig → List Key
filter_keys i none = []
filter_keys i (some f) = envoy_filter_key i f ∷ []

-- `j` is none of the objects that the resource, with its defaults set, may touch: those of its
-- enabled parts, the proxy Service, the EnvoyFilter if it is configured, and the resource itself.
pub record Spares (i : SchedulerInstall) (j : Key) : Type 0 where
  pub epp : Misses j (enabled_keys i.spec.epp (λ e. e.enabled) (epp_keys i))
  pub gateway : Misses j (enabled_keys i.spec.gateway (λ g. g.enabled) (λ g. gateway_key i g ∷ []))
  pub proxy : proxy_key i ≢ j
  pub routing : Misses j (
      enabled_keys i.spec.routing
        (λ p. p.enabled)
        (λ p. reference_grant_key i ∷ http_route_key i p ∷ []))
  pub destination_rule :
      Misses j
        (enabled_keys i.spec.destination_rule (λ d. d.enabled) (λ d. destination_rule_key i ∷ []))
  pub envoy_filter : Misses j (filter_keys i i.spec.envoy_filter)
  pub resource : owner_key i ≢ j

module _ {C : Client} (L : IsLawful C) (now : ℕ) (i : SchedulerInstall) {j : Key}
    {r : Result (Object j.kind)} where
  envoy_filter-Keeps :
      (e : SchedulerEppConfig) (f : SchedulerEnvoyFilterConfig)
      → envoy_filter_key i f ≢ j
      → Keeps (Reads C j r) (reconcile_envoy_filter C i e f)
  unfolding reconcile_envoy_filter
  envoy_filter-Keeps e f ne = search (keeps_rules, write_rules, L) depth 8

  delete_envoy_filter-Keeps :
      (f : SchedulerEnvoyFilterConfig)
      → envoy_filter_key i f ≢ j
      → Keeps (Reads C j r) (delete_envoy_filter C i f)
  unfolding delete_envoy_filter
  delete_envoy_filter-Keeps f ne = search (keeps_rules, write_rules, L)

  filter_with_epp-Keeps :
      (f : SchedulerEnvoyFilterConfig) (o : Option SchedulerEppConfig)
      → envoy_filter_key i f ≢ j
      → Keeps (Reads C j r) (filter_with_epp C i f o)
  unfolding filter_with_epp
  filter_with_epp-Keeps f none ne = search keeps_rules
  filter_with_epp-Keeps f (some e) ne =
      Keeps-branch _ _ _ (Keeps-branch _ _ _ (Keeps-fail _) (envoy_filter-Keeps e f ne))
        (Keeps-fail _)

  pub filter_step-Keeps :
      (o : Option SchedulerEnvoyFilterConfig)
      → Misses j (filter_keys i o)
      → Keeps (Reads C j r) (filter_step C i o)
  unfolding filter_step
  filter_step-Keeps none m = search keeps_rules
  filter_step-Keeps (some f) (cons ne nil) =
      search (keeps_rules, filter_with_epp-Keeps f i.spec.epp ne, delete_envoy_filter-Keeps f ne)

  pub routing_step-Keeps :
      (p : SchedulerRoutingConfig)
      → Misses j (reference_grant_key i ∷ http_route_key i p ∷ [])
      → Keeps (Reads C j r) (routing_step C i p)
  unfolding routing_step
  routing_step-Keeps p (cons grant (cons route nil)) = search (
    keeps_rules,
    reconcile_reference_grant-Keeps L i grant,
    reconcile_http_route-Keeps L i p route,
  )

  pub update_status-Keeps :
      (ready : Bool) (reason message : String)
      → owner_key i ≢ j
      → Keeps (Reads C j r) (update_status C now i ready reason message)
  unfolding update_status
  update_status-Keeps ready reason message ne = search (keeps_rules, write_rules, L)

  enabled-Keeps :
      {A : Type 0} (o : Option A) (enabled : A → Bool) (keys : A → List Key)
      (m : A → Call C.State (Unit {0}))
      → ((a : A) → Misses j (keys a) → Keeps (Reads C j r) (m a))
      → Misses j (enabled_keys o enabled keys)
      → Keeps (Reads C j r) (on_enabled o enabled m)
  enabled-Keeps o enabled keys m k miss =
      Keeps-on_enabled o enabled m (λ a e t. k a (Misses-enabled o enabled keys miss a e t))

  pub reconcile_install-Keeps : Spares i j → Keeps (Reads C j r) (reconcile_install C now i)
  unfolding reconcile_install
  reconcile_install-Keeps m =
      Keeps-seq
        (enabled-Keeps i.spec.epp (λ e. e.enabled) (epp_keys i) _
          (λ e. reconcile_scheduler_epp-Keeps L i e) m.epp)
        (Keeps-seq
          (enabled-Keeps i.spec.gateway (λ g. g.enabled) (λ g. gateway_key i g ∷ []) _
            (λ g miss. reconcile_gateway-Keeps L i g (Misses-head miss)) m.gateway)
          (Keeps-seq (reconcile_proxy_service-Keeps L i m.proxy) (
            Keeps-seq
              (enabled-Keeps i.spec.routing (λ p. p.enabled)
                (λ p. reference_grant_key i ∷ http_route_key i p ∷ []) _ routing_step-Keeps
                m.routing)
              (Keeps-seq
                (enabled-Keeps i.spec.destination_rule (λ d. d.enabled)
                  (λ d. destination_rule_key i ∷ []) _
                  (λ d miss. reconcile_destination_rule-Keeps L i d (Misses-head miss))
                  m.destination_rule)
                (Keeps-seq (filter_step-Keeps i.spec.envoy_filter m.envoy_filter)
                  (update_status-Keeps true _ _ m.resource))))))

module _ {C : Client} (L : IsLawful C) (now : ℕ) (namespace name : String) {j : Key}
    {r : Result (Object j.kind)} where
  fetched-Keeps :
      (found : Result (Object Kind.scheduler_install))
      → ((o : Object Kind.scheduler_install)
          → found ≡ ok o
          → Spares (with_defaults namespace name o.body.spec) j)
      → Keeps (Reads C j r) (fetched C now namespace name found)
  unfolding fetched checked
  fetched-Keeps (ok o) h = search (
    keeps_rules,
    reconcile_install-Keeps L now (with_defaults namespace name o.body.spec) (h o refl),
  )
  fetched-Keeps (err not_found) h = search keeps_rules
  fetched-Keeps (err (failed e)) h = search keeps_rules

-- A reconcile, whether it succeeds or fails, and whichever calls fail, leaves every object
-- unchanged that is none of the resource's.
pub reconcile-frame :
    {C : Client} (L : IsLawful C) (now : ℕ) (namespace name : String) (s : C.State) (j : Key)
    → ((o : Object Kind.scheduler_install)
        → C.get s (record { kind = Kind.scheduler_install; namespace = namespace; name = name })
          ≡ ok o
        → Spares (with_defaults namespace name o.body.spec) j)
    → C.get (reconcile C now namespace name s).1 j ≡ C.get s j
unfolding reconcile ◌>>=◌
reconcile-frame {C} L now namespace name s j h =
    ((fetched-Keeps L now namespace name (C.get s _) h).at s (record { reads = refl })).reads
