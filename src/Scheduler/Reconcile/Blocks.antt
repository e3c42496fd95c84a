-- ===== src/Scheduler/Reconcile/Blocks.antt =====
-- Each block of `Reconcile` establishes its part of `Converged`.
use llm_d_scheduler_sim_oper.Base.{true, some, ◌≡◌, refl}
use llm_d_scheduler_sim_oper.Api.{
  LoadBalancingConfig, SchedulerGatewayConfig, SchedulerRoutingConfig, SchedulerInstall,
}
use llm_d_scheduler_sim_oper.Kube.Triples.{Ensures, Ensures-later, Ensures-when}
use llm_d_scheduler_sim_oper.Kube.Client.{Client, IsLawful, Holds, gvk_supported}
use llm_d_scheduler_sim_oper.Kube.Client.Writes.{Ensures-mutate}
use llm_d_scheduler_sim_oper.Scheduler.EppContent.{cross_namespace_labels}
use llm_d_scheduler_sim_oper.Scheduler.Epp.Installed.{Selects}
use llm_d_scheduler_sim_oper.Scheduler.NetworkContent.{
  gateway_gvk, http_route_gvk, reference_grant_gvk, destination_rule_gvk, proxy_key, gateway_key,
  gateway_spec, http_route_key, http_route_spec, reference_grant_key, reference_grant_spec,
  destination_rule_key, destination_rule_spec, mutate_proxy_service,
}
use llm_d_scheduler_sim_oper.Scheduler.Network.Labels.{merge-Selects}
use llm_d_scheduler_sim_oper.Scheduler.Network.{
  reconcile_proxy_service, reconcile_gateway, reconcile_http_route, reconcile_reference_grant,
  reconcile_destination_rule,
}
use llm_d_scheduler_sim_oper.Scheduler.Reconcile.Converged.{IsProxyService}

module _ {C : Client} (L : IsLawful C) (i : SchedulerInstall) where
  pub gateway_Ensures :
      (g : SchedulerGatewayConfig)
      → gvk_supported C gateway_gvk ≡ true
      → Ensures
          (reconcile_gateway C i g)
          (Holds C (gateway_key i g) (λ b. b.spec ≡ some (gateway_spec i g)))
  unfolding reconcile_gateway
  gateway_Ensures g h =
      Ensures-when _ _ h (Ensures-later _ _ (λ b. Ensures-mutate L _ b _ _ (λ base. refl)))

  pub proxy_Ensures :
      Ensures (reconcile_proxy_service C i) (Holds C (proxy_key i) (IsProxyService C i))
  unfolding reconcile_proxy_service mutate_proxy_service
  proxy_Ensures =
      Ensures-mutate L _ _ _ _
        (λ base. record { cluster_only = refl; selector = refl; ports = refl })

  pub route_Ensures :
      (p : SchedulerRoutingConfig)
      → gvk_supported C http_route_gvk ≡ true
      → Ensures
          (reconcile_http_route C i p)
          (Holds C (http_route_key i p) (λ b. b.spec ≡ some (http_route_spec i p)))
  unfolding reconcile_http_route
  route_Ensures p h =
      Ensures-when _ _ h (Ensures-later _ _ (λ b. Ensures-mutate L _ b _ _ (λ base. refl)))

  pub grant_Ensures :
      gvk_supported C reference_grant_gvk ≡ true
      → Ensures (reconcile_reference_grant C i) (
          Holds C (reference_grant_key i) (λ b.
            (b.spec ≡ some (reference_grant_spec i))
            × Selects (cross_namespace_labels i) b.meta.labels))
  unfolding reconcile_reference_grant
  grant_Ensures h =
      Ensures-when _ _ h (Ensures-mutate L _ _ _ _ (λ base. (refl, merge-Selects i _)))

  pub rule_Ensures :
      (d : LoadBalancingConfig)
      → gvk_supported C destination_rule_gvk ≡ true
      → Ensures (reconcile_destination_rule C i d) (
          Holds C (destination_rule_key i) (λ b.
            (b.spec ≡ some (destination_rule_spec i d))
            × Selects (cross_namespace_labels i) b.meta.labels))
  unfolding reconcile_destination_rule
  rule_Ensures d h =
      Ensures-when _ _ h (Ensures-mutate L _ _ _ _ (λ base. (refl, merge-Selects i _)))
