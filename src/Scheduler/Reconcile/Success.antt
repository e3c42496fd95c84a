-- ===== src/Scheduler/Reconcile/Success.antt =====
-- The state of the cluster after a reconcile of a `SchedulerInstall` that returns no error.
use mathlib.Core.Path.{subst}
use llm_d_scheduler_sim_oper.Base.{ℕ, true, some, ◌≡◌, ◌≢◌, refl, sym}
use llm_d_scheduler_sim_oper.Api.{
  SchedulerEppConfig, SchedulerGatewayConfig, SchedulerRoutingConfig, SchedulerEnvoyFilterConfig,
  LoadBalancingConfig, SchedulerInstall,
}
use llm_d_scheduler_sim_oper.Kube.Objects.{Kind, Key, Object, Body}
use llm_d_scheduler_sim_oper.Kube.Calls.{Result, ok, err, not_found, Call}
use llm_d_scheduler_sim_oper.Kube.Triples.{
  Keeps, Keeps-seq, Ensures, Ensures-branch, Ensures-fail, Ensures-on_enabled, first, later,
}
use llm_d_scheduler_sim_oper.Kube.Client.{Client, IsLawful, Holds, gvk_supported}
use llm_d_scheduler_sim_oper.Kube.Client.Writes.{Reads, Keeps-Holds}
use llm_d_scheduler_sim_oper.Scheduler.EppContent.{epp_key, cross_namespace_labels}
use llm_d_scheduler_sim_oper.Scheduler.Epp.Installed.{
  Selects, EppInstalled, ne_epp_kind, reconcile_scheduler_epp-EppInstalled, Keeps-EppInstalled,
}
use llm_d_scheduler_sim_oper.Scheduler.NetworkContent.{
  gateway_gvk, http_route_gvk, reference_grant_gvk, destination_rule_gvk, proxy_key, gateway_key,
  gateway_spec, http_route_key, http_route_spec, reference_grant_key, reference_grant_spec,
  destination_rule_key, destination_rule_spec,
}
use llm_d_scheduler_sim_oper.Scheduler.Network.Frame.{
  reconcile_proxy_service-Keeps, reconcile_http_route-Keeps,
}
use llm_d_scheduler_sim_oper.Scheduler.Reconcile.{reconcile_install, routing_step, filter_step}
use llm_d_scheduler_sim_oper.Scheduler.Reconcile.Steps.{
  gateway_block-Keeps, routing_block-Keeps, rule_block-Keeps, filter_block-Keeps,
  status_block-Keeps,
}
use llm_d_scheduler_sim_oper.Scheduler.Reconcile.Converged.{
  IsProxyService, FilterInstalled, Enabled, IsReady, Converged,
}
use llm_d_scheduler_sim_oper.Scheduler.Reconcile.Blocks.{
  gateway_Ensures, proxy_Ensures, route_Ensures, grant_Ensures, rule_Ensures,
}
use llm_d_scheduler_sim_oper.Scheduler.Reconcile.FilterBlock.{
  filter_Ensures, no_filter_Ensures, status_Ensures,
}

module _ {C : Client} (L : IsLawful C) (now : ℕ) (i : SchedulerInstall) where
  abbrev run : Call C.State (Unit {0})
  run = reconcile_install C now i

  epp_part :
      (e : SchedulerEppConfig)
      → Enabled C i i.spec.epp (λ e. e.enabled) e
      → proxy_key i ≢ epp_key i e Kind.service
      → Ensures run (EppInstalled i e C)
  unfolding reconcile_install
  epp_part e (there, on) ne =
      first (Ensures-on_enabled _ _ _ e there on (reconcile_scheduler_epp-EppInstalled L i e)) (
        Keeps-EppInstalled i e {p = proxy_key i} _ refl ne λ j r k other.
          Keeps-seq (gateway_block-Keeps L now i (ne_epp_kind j.kind k (λ x. x))) (
            Keeps-seq (reconcile_proxy_service-Keeps L i other) (
              Keeps-seq
                (routing_block-Keeps L now i (ne_epp_kind j.kind k (λ x. x))
                  (ne_epp_kind j.kind k (λ x. x)))
                (Keeps-seq (rule_block-Keeps L now i (ne_epp_kind j.kind k (λ x. x))) (
                  Keeps-seq (filter_block-Keeps L now i (ne_epp_kind j.kind k (λ x. x)))
                    (status_block-Keeps L now i (ne_epp_kind j.kind k (λ x. x))))))))

  gateway_part :
      (g : SchedulerGatewayConfig)
      → Enabled C i i.spec.gateway (λ g. g.enabled) g
      → gvk_supported C gateway_gvk ≡ true
      → Ensures run (Holds C (gateway_key i g) (λ b. b.spec ≡ some (gateway_spec i g)))
  unfolding reconcile_install
  gateway_part g (there, on) h = later _ (
      first (Ensures-on_enabled _ _ _ g there on (gateway_Ensures L i g h)) (
        Keeps-Holds _ _ _ λ r. Keeps-seq (reconcile_proxy_service-Keeps L i (λ x. cc)) (
          Keeps-seq (routing_block-Keeps L now i (λ x. cc) (λ x. cc)) (
            Keeps-seq (rule_block-Keeps L now i (λ x. cc)) (
              Keeps-seq (filter_block-Keeps L now i (λ x. cc))
                (status_block-Keeps L now i (λ x. cc)))))))

  proxy_part : Ensures run (Holds C (proxy_key i) (IsProxyService C i))
  unfolding reconcile_install
  proxy_part = later _ (
      later _ (
        first (proxy_Ensures L i) (
          Keeps-Holds _ _ _ λ r. Keeps-seq (routing_block-Keeps L now i (λ x. cc) (λ x. cc)) (
            Keeps-seq (rule_block-Keeps L now i (λ x. cc)) (
              Keeps-seq (filter_block-Keeps L now i (λ x. cc))
                (status_block-Keeps L now i (λ x. cc)))))))

  -- What the routing block ensures of the grant or of the route, the later blocks keep.
  routing_part :
      (j : Key) (Q : Body j.kind → Type 0)
      → Kind.destination_rule ≢ j.kind
      → Kind.envoy_filter ≢ j.kind
      → Kind.scheduler_install ≢ j.kind
      → (p : SchedulerRoutingConfig) → Enabled C i i.spec.routing (λ p. p.enabled) p
      → Ensures (routing_step C i p) (Holds C j Q)
      → Ensures run (Holds C j Q)
  unfolding reconcile_install
  routing_part j Q rule filter status p (there, on) h = later _ (
      later _ (
        later _ (
          first (Ensures-on_enabled _ _ _ p there on h) (
            Keeps-Holds _ _ _ λ r. Keeps-seq (rule_block-Keeps L now i rule) (
              Keeps-seq (filter_block-Keeps L now i filter) (status_block-Keeps L now i status))))))

  grant_step :
      (p : SchedulerRoutingConfig)
      → gvk_supported C reference_grant_gvk ≡ true
      → Ensures (routing_step C i p) (
          Holds C (reference_grant_key i) (λ b.
            (b.spec ≡ some (reference_grant_spec i))
            × Selects (cross_namespace_labels i) b.meta.labels))
  unfolding routing_step
  grant_step p h =
      Ensures-branch _ _ _
        (λ _.
          first (grant_Ensures L i h)
            (Keeps-Holds _ _ _ λ r. reconcile_http_route-Keeps L i p (λ x. cc)))
        (λ _. Ensures-fail _)

  route_step :
      (p : SchedulerRoutingConfig)
      → gvk_supported C http_route_gvk ≡ true
      → Ensures
          (routing_step C i p)
          (Holds C (http_route_key i p) (λ b. b.spec ≡ some (http_route_spec i p)))
  unfolding routing_step
  route_step p h = Ensures-branch _ _ _ (λ _. later _ (route_Ensures L i p h)) (λ _. Ensures-fail _)

  rule_part :
      (d : LoadBalancingConfig)
      → Enabled C i i.spec.destination_rule (λ d. d.enabled) d
      → gvk_supported C destination_rule_gvk ≡ true
      → Ensures run (
          Holds C (destination_rule_key i) (λ b.
            (b.spec ≡ some (destination_rule_spec i d))
            × Selects (cross_namespace_labels i) b.meta.labels))
  unfolding reconcile_install
  rule_part d (there, on) h = later _ (
      later _ (
        later _ (
          later _ (
            first (Ensures-on_enabled _ _ _ d there on (rule_Ensures L i d h)) (
              Keeps-Holds _ _ _ λ r.
                Keeps-seq (filter_block-Keeps L now i (λ x. cc))
                  (status_block-Keeps L now i (λ x. cc)))))))

  -- What the last block before the status ensures of the EnvoyFilter, the status write keeps.
  filter_part :
      (f : SchedulerEnvoyFilterConfig) (Q : C.State → Type 0)
      → i.spec.envoy_filter ≡ some f
      → Ensures (filter_step C i (some f)) Q
      → ((m : Call C.State (Unit {0}))
          → ((j : Key) (r : Result (Object j.kind))
              → Kind.scheduler_install ≢ j.kind
              → Keeps (Reads C j r) m)
          → Keeps Q m)
      → Ensures run Q
  unfolding reconcile_install
  filter_part f Q there h keep = later _ (
      later _ (
        later _ (
          later _ (
            later _ (
              first (subst (λ o. Ensures (filter_step C i o) Q) (sym there) h)
                (keep _ (λ j r ne. status_block-Keeps L now i ne)))))))

  Keeps-FilterInstalled :
      (e : SchedulerEppConfig) (f : SchedulerEnvoyFilterConfig) (m : Call C.State (Unit {0}))
      → ((j : Key) (r : Result (Object j.kind))
          → Kind.scheduler_install ≢ j.kind
          → Keeps (Reads C j r) m)
      → Keeps (FilterInstalled C i e f) m
  Keeps-FilterInstalled e f m k = record {
    at = λ s h. record {
      service = h.service;
      service_stored =
          ((k _ (ok h.service) (λ x. cc)).at s (record { reads = h.service_stored })).reads;
      addressed = h.addressed;
      filter = (Keeps-Holds _ _ m (λ r. k _ r (λ x. cc))).at s h.filter;
    };
  }

  status_part : Ensures run (IsReady C i now)
  unfolding reconcile_install
  status_part = later _ (later _ (later _ (later _ (later _ (later _ (status_Ensures L now i))))))

  -- If the EPP's Service and the proxy Service are two objects, a run that returns no error leaves
  -- the cluster as the resource describes.
  pub reconcile_install-Converged :
      ((e : SchedulerEppConfig) → i.spec.epp ≡ some e → proxy_key i ≢ epp_key i e Kind.service)
      → Ensures run (Converged C i now)
  reconcile_install-Converged separate = record {
    at = λ s x. record {
      epp = λ e on. (epp_part e on (separate e on.0)).at s x;
      gateway = λ g on h. (gateway_part g on h).at s x;
      proxy = proxy_part.at s x;
      grant =
          λ p on h. (routing_part _ _ (λ y. cc) (λ y. cc) (λ y. cc) p on (grant_step p h)).at s x;
      route =
          λ p on h. (routing_part _ _ (λ y. cc) (λ y. cc) (λ y. cc) p on (route_step p h)).at s x;
      rule = λ d on h. (rule_part d on h).at s x;
      filter = λ e f epp on h.
          (filter_part f _ on.0 (filter_Ensures L i e f epp on.1 h) (Keeps-FilterInstalled e f)).at
            s x;
      no_filter = λ f there off named h.
          (filter_part f _ there (no_filter_Ensures L i f off named h) (λ m k. record {
            at = λ t r. ((k _ (err not_found) (λ y. cc)).at t (record { reads = r })).reads;
          })).at
            s x;
      status = status_part.at s x;
    };
  }
