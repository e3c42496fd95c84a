-- ===== src/Scheduler/Network.antt =====
-- `reconcileProxyService`, `reconcileGateway`, `reconcileHTTPRoute`, `reconcileReferenceGrant` and
-- `reconcileDestinationRule` of controllers/schedulerinstall_controller.go. Where the cluster does
-- not serve a kind, its function returns at once.
pub mod Frame
pub mod Labels
use llm_d_scheduler_sim_oper.Base.{none, some, []}
use llm_d_scheduler_sim_oper.Api.{
  LoadBalancingConfig, SchedulerGatewayConfig, SchedulerRoutingConfig, SchedulerInstall,
}
use llm_d_scheduler_sim_oper.Kube.Calls.{ok, Call, lift, ◌>>=◌, when}
use llm_d_scheduler_sim_oper.Kube.Client.{Client, set_owner, gvk_supported, empty_meta}
use llm_d_scheduler_sim_oper.Scheduler.EppContent.{owner_key, cross_namespace_labels, empty_service}
use llm_d_scheduler_sim_oper.Scheduler.NetworkContent.{
  gateway_gvk, http_route_gvk, reference_grant_gvk, destination_rule_gvk, add_owner_labels,
  proxy_key, mutate_proxy_service, gateway_key, gateway_spec, http_route_key, http_route_spec,
  reference_grant_key, reference_grant_spec, destination_rule_key, destination_rule_spec,
}

module _ (C : Client) (i : SchedulerInstall) where
  unfoldable pub reconcile_proxy_service : Call C.State (Unit {0})
  reconcile_proxy_service =
      C.create_or_update (proxy_key i)
        (record empty_service {
          meta = record { labels = cross_namespace_labels i; owner_references = [] };
        })
        (λ b. ok (mutate_proxy_service i b))

  unfoldable pub reconcile_gateway : SchedulerGatewayConfig → Call C.State (Unit {0})
  reconcile_gateway g = when (gvk_supported C gateway_gvk) do
    gw ←
        lift
          (set_owner C (owner_key i) (gateway_key i g) (record { meta = empty_meta; spec = none }))
    C.create_or_update (gateway_key i g) gw (λ b. ok (record b { spec = some (gateway_spec i g) }))

  unfoldable pub reconcile_http_route : SchedulerRoutingConfig → Call C.State (Unit {0})
  reconcile_http_route r = when (gvk_supported C http_route_gvk) do
    route ←
        lift (
          set_owner C (owner_key i) (http_route_key i r)
            (record { meta = empty_meta; spec = none }))
    C.create_or_update (http_route_key i r) route
        (λ b. ok (record b { spec = some (http_route_spec i r) }))

  unfoldable pub reconcile_reference_grant : Call C.State (Unit {0})
  reconcile_reference_grant = when (gvk_supported C reference_grant_gvk) (
      C.create_or_update (reference_grant_key i) (record { meta = empty_meta; spec = none })
        (λ b.
          ok (record { meta = add_owner_labels i b.meta; spec = some (reference_grant_spec i) })))

  unfoldable pub reconcile_destination_rule : LoadBalancingConfig → Call C.State (Unit {0})
  reconcile_destination_rule d = when (gvk_supported C destination_rule_gvk) (
      C.create_or_update (destination_rule_key i) (record { meta = empty_meta; spec = none })
        (λ b.
          ok
            (record { meta = add_owner_labels i b.meta; spec = some (destination_rule_spec i d) })))
