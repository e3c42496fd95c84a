-- ===== src/Scheduler/Reconcile/Converged.antt =====
-- Where a `SchedulerInstall` leads: what is in the cluster when `Reconcile` returns no error.
use llm_d_scheduler_sim_oper.Base.{ℕ, Bool, true, false, Option, some, [], ◌∷◌, ◌≡◌, ◌≢◌}
use llm_d_scheduler_sim_oper.Api.{
  LoadBalancingConfig, SchedulerGatewayConfig, SchedulerRoutingConfig, SchedulerEnvoyFilterConfig,
  SchedulerEppConfig, SchedulerInstall,
}
use llm_d_scheduler_sim_oper.Conditions.Ready.{find_ready}
use llm_d_scheduler_sim_oper.Kube.Objects.{Kind, Body, Object, IsControlledBy}
use llm_d_scheduler_sim_oper.Kube.Calls.{ok, err, not_found}
use llm_d_scheduler_sim_oper.Kube.Client.{Client, Holds, gvk_supported}
use llm_d_scheduler_sim_oper.Scheduler.EppContent.{owner_key, epp_key, cross_namespace_labels}
use llm_d_scheduler_sim_oper.Scheduler.Epp.Installed.{Selects, EppInstalled}
use llm_d_scheduler_sim_oper.Scheduler.NetworkContent.{
  gateway_gvk, http_route_gvk, reference_grant_gvk, destination_rule_gvk, proxy_key, gateway_key,
  gateway_spec, http_route_key, http_route_spec, reference_grant_key, reference_grant_spec,
  destination_rule_key, destination_rule_spec,
}
use llm_d_scheduler_sim_oper.Scheduler.EnvoyContent.{
  envoy_filter_gvk, envoy_filter_key, envoy_filter_spec,
}
use llm_d_scheduler_sim_oper.Scheduler.Reconcile.{mutate_envoy_filter, ready_condition}

module _ (C : Client) (i : SchedulerInstall) where
  -- The proxy Service forwards its port to the target port of the selected pods.
  pub record IsProxyService (b : Body Kind.service) : Type 0 where
    pub cluster_only : b.spec.service_type ≡ "ClusterIP"
    pub selector : b.spec.selector ≡ i.spec.proxy_service.selector
    pub ports :
        b.spec.ports
        ≡ record {
          name = "http";
          port = i.spec.proxy_service.port;
          target_port = i.spec.proxy_service.target_port;
          protocol = "TCP";
        }
          ∷ []

  -- The EnvoyFilter names the address that the EPP's Service has, and is the resource's; the
  -- callback finds nothing left to change in it.
  pub record FilterInstalled (e : SchedulerEppConfig) (f : SchedulerEnvoyFilterConfig) (s : C.State)
      : Type 0 where
    pub service : Object Kind.service
    pub service_stored : C.get s (epp_key i e Kind.service) ≡ ok service
    pub addressed : service.status.cluster_ip ≢ ""
    pub filter :
        Holds C
          (envoy_filter_key i f)
          (λ b.
            (b.spec ≡ some (envoy_filter_spec f service.status.cluster_ip e.port))
            × (IsControlledBy (owner_key i) b.meta.owner_references)
            × (mutate_envoy_filter C i e f service.status.cluster_ip b ≡ ok b))
          s

  -- The resource is stored, and its "Ready" condition is the one for success.
  pub record IsReady (now : ℕ) (s : C.State) : Type 0 where
    pub resource : Object Kind.scheduler_install
    pub stored : C.get s (owner_key i) ≡ ok resource
    pub ready :
        find_ready resource.status.conditions
        ≡ some (ready_condition C now true "Reconciled" "SchedulerInstall resources are ready")

  abbrev pub Enabled : {A : Type 0} → Option A → (A → Bool) → A → Type 0
  Enabled o enabled a = (o ≡ some a) × (enabled a ≡ true)

  -- Every enabled part is in place, for the kinds that the cluster serves, and the resource is
  -- marked ready.
  pub record Converged (now : ℕ) (s : C.State) : Type 0 where
    pub epp :
        (e : SchedulerEppConfig) → Enabled i.spec.epp (λ e. e.enabled) e → EppInstalled i e C s
    pub gateway :
        (g : SchedulerGatewayConfig)
        → Enabled i.spec.gateway (λ g. g.enabled) g
        → gvk_supported C gateway_gvk ≡ true
        → Holds C (gateway_key i g) (λ b. b.spec ≡ some (gateway_spec i g)) s
    pub proxy : Holds C (proxy_key i) IsProxyService s
    pub grant :
        (p : SchedulerRoutingConfig)
        → Enabled i.spec.routing (λ p. p.enabled) p
        → gvk_supported C reference_grant_gvk ≡ true
        → Holds C
            (reference_grant_key i)
            (λ b.
              (b.spec ≡ some (reference_grant_spec i))
              × Selects (cross_namespace_labels i) b.meta.labels)
            s
    pub route :
        (p : SchedulerRoutingConfig)
        → Enabled i.spec.routing (λ p. p.enabled) p
        → gvk_supported C http_route_gvk ≡ true
        → Holds C (http_route_key i p) (λ b. b.spec ≡ some (http_route_spec i p)) s
    pub rule :
        (d : LoadBalancingConfig)
        → Enabled i.spec.destination_rule (λ d. d.enabled) d
        → gvk_supported C destination_rule_gvk ≡ true
        → Holds C
            (destination_rule_key i)
            (λ b.
              (b.spec ≡ some (destination_rule_spec i d))
              × Selects (cross_namespace_labels i) b.meta.labels)
            s
    pub filter :
        (e : SchedulerEppConfig) (f : SchedulerEnvoyFilterConfig)
        → i.spec.epp ≡ some e
        → Enabled i.spec.envoy_filter (λ f. f.enabled) f
        → gvk_supported C envoy_filter_gvk ≡ true
        → FilterInstalled e f s
    pub no_filter :
        (f : SchedulerEnvoyFilterConfig)
        → i.spec.envoy_filter ≡ some f
        → f.enabled ≡ false
        → f.name ≢ ""
        → gvk_supported C envoy_filter_gvk ≡ true
        → C.get s (envoy_filter_key i f) ≡ err not_found
    pub status : IsReady now s
