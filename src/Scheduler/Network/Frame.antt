-- ===== src/Scheduler/Network/Frame.antt =====
-- Each function of `Network` touches one object, and none where the cluster lacks the kind.
use llm_d_scheduler_sim_oper.Base.{◌≢◌}
use llm_d_scheduler_sim_oper.Api.{
  LoadBalancingConfig, SchedulerGatewayConfig, SchedulerRoutingConfig, SchedulerInstall,
}
use llm_d_scheduler_sim_oper.Kube.Objects.{Key, Object}
use llm_d_scheduler_sim_oper.Kube.Calls.{Result}
use llm_d_scheduler_sim_oper.Kube.Triples.{Keeps, keeps_rules}
use llm_d_scheduler_sim_oper.Kube.Client.{Client, IsLawful}
use llm_d_scheduler_sim_oper.Kube.Client.Writes.{Reads, Keeps-create_or_update}
use llm_d_scheduler_sim_oper.Scheduler.NetworkContent.{
  proxy_key, gateway_key, http_route_key, reference_grant_key, destination_rule_key,
}
use llm_d_scheduler_sim_oper.Scheduler.Network.{
  reconcile_proxy_service, reconcile_gateway, reconcile_http_route, reconcile_reference_grant,
  reconcile_destination_rule,
}

module _ {C : Client} (L : IsLawful C) (i : SchedulerInstall) {j : Key}
    {r : Result (Object j.kind)} where
  pub reconcile_proxy_service-Keeps :
      proxy_key i ≢ j → Keeps (Reads C j r) (reconcile_proxy_service C i)
  unfolding reconcile_proxy_service
  reconcile_proxy_service-Keeps ne = search (keeps_rules, Keeps-create_or_update L)

  pub reconcile_gateway-Keeps :
      (g : SchedulerGatewayConfig)
      → gateway_key i g ≢ j
      → Keeps (Reads C j r) (reconcile_gateway C i g)
  unfolding reconcile_gateway
  reconcile_gateway-Keeps g ne = search (keeps_rules, Keeps-create_or_update L)

  pub reconcile_http_route-Keeps :
      (p : SchedulerRoutingConfig)
      → http_route_key i p ≢ j
      → Keeps (Reads C j r) (reconcile_http_route C i p)
  unfolding reconcile_http_route
  reconcile_http_route-Keeps p ne = search (keeps_rules, Keeps-create_or_update L)

  pub reconcile_reference_grant-Keeps :
      reference_grant_key i ≢ j → Keeps (Reads C j r) (reconcile_reference_grant C i)
  unfolding reconcile_reference_grant
  reconcile_reference_grant-Keeps ne = search (keeps_rules, Keeps-create_or_update L)

  pub reconcile_destination_rule-Keeps :
      (d : LoadBalancingConfig)
      → destination_rule_key i ≢ j
      → Keeps (Reads C j r) (reconcile_destination_rule C i d)
  unfolding reconcile_destination_rule
  reconcile_destination_rule-Keeps d ne = search (keeps_rules, Keeps-create_or_update L)
