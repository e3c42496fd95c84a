-- ===== src/Scheduler/Reconcile/Steps.antt =====
-- The blocks of `Reconcile` by the kinds that they write: a block keeps every object of another
-- kind.
use llm_d_scheduler_sim_oper.Base.{ℕ, true, Option, none, some, ◌≢◌}
use llm_d_scheduler_sim_oper.Api.{SchedulerEppConfig, SchedulerEnvoyFilterConfig, SchedulerInstall}
use llm_d_scheduler_sim_oper.Kube.Objects.{Kind, Key, Object}
use llm_d_scheduler_sim_oper.Kube.Calls.{Result, on_enabled}
use llm_d_scheduler_sim_oper.Kube.Triples.{Keeps, Keeps-on_enabled}
use llm_d_scheduler_sim_oper.Kube.Client.{Client, IsLawful}
use llm_d_scheduler_sim_oper.Kube.Client.Writes.{Reads, Misses, nil, cons, kind_ne}
use llm_d_scheduler_sim_oper.Scheduler.Epp.Installed.{IsEppKind, epp_kind_ne}
use llm_d_scheduler_sim_oper.Scheduler.Epp.{reconcile_scheduler_epp}
use llm_d_scheduler_sim_oper.Scheduler.Epp.Frame.{epp_keys, reconcile_scheduler_epp-Keeps}
use llm_d_scheduler_sim_oper.Scheduler.Network.{reconcile_gateway, reconcile_destination_rule}
use llm_d_scheduler_sim_oper.Scheduler.Network.Frame.{
  reconcile_gateway-Keeps, reconcile_destination_rule-Keeps,
}
use llm_d_scheduler_sim_oper.Scheduler.Reconcile.{filter_step, routing_step, update_status}
use llm_d_scheduler_sim_oper.Scheduler.Reconcile.Frame.{
  filter_step-Keeps, routing_step-Keeps, update_status-Keeps, filter_keys,
}

filter_keys-Misses :
    {j : Key} (i : SchedulerInstall) (o : Option SchedulerEnvoyFilterConfig)
    → Kind.envoy_filter ≢ j.kind
    → Misses j (filter_keys i o)
filter_keys-Misses i none ne = nil
filter_keys-Misses i (some f) ne = cons (kind_ne ne) nil

epp_keys-Misses :
    (i : SchedulerInstall) (e : SchedulerEppConfig) {j : Key}
    → ¬ IsEppKind j.kind
    → Misses j (epp_keys i e)
epp_keys-Misses i e other = cons (kind_ne (epp_kind_ne _ tt other)) (
    cons (kind_ne (epp_kind_ne _ tt other)) (
      cons (kind_ne (epp_kind_ne _ tt other)) (
        cons (kind_ne (epp_kind_ne _ tt other))
          (cons (kind_ne (epp_kind_ne _ tt other)) (cons (kind_ne (epp_kind_ne _ tt other)) nil)))))

module _ {C : Client} (L : IsLawful C) (now : ℕ) (i : SchedulerInstall) {j : Key}
    {r : Result (Object j.kind)} where
  pub epp_block-Keeps :
      ¬ IsEppKind j.kind
      → Keeps (Reads C j r) (on_enabled i.spec.epp (λ e. e.enabled) (reconcile_scheduler_epp C i))
  epp_block-Keeps other =
      Keeps-on_enabled i.spec.epp _ _
        λ e x t. reconcile_scheduler_epp-Keeps L i e (epp_keys-Misses i e other)

module _ {C : Client} (L : IsLawful C) (now : ℕ) (i : SchedulerInstall) {j : Key}
    {r : Result (Object j.kind)} where
  pub gateway_block-Keeps :
      Kind.gateway ≢ j.kind
      → Keeps (Reads C j r) (on_enabled i.spec.gateway (λ g. g.enabled) (reconcile_gateway C i))
  gateway_block-Keeps ne =
      Keeps-on_enabled _ _ _ (λ g _ _. reconcile_gateway-Keeps L i g (kind_ne ne))

  pub routing_block-Keeps :
      Kind.reference_grant ≢ j.kind
      → Kind.http_route ≢ j.kind
      → Keeps (Reads C j r) (on_enabled i.spec.routing (λ p. p.enabled) (routing_step C i))
  routing_block-Keeps grant route =
      Keeps-on_enabled _ _ _
        (λ p _ _. routing_step-Keeps L now i p (cons (kind_ne grant) (cons (kind_ne route) nil)))

  pub rule_block-Keeps :
      Kind.destination_rule ≢ j.kind
      → Keeps
          (Reads C j r)
          (on_enabled i.spec.destination_rule (λ d. d.enabled) (reconcile_destination_rule C i))
  rule_block-Keeps ne =
      Keeps-on_enabled _ _ _ (λ d _ _. reconcile_destination_rule-Keeps L i d (kind_ne ne))

  pub filter_block-Keeps :
      Kind.envoy_filter ≢ j.kind → Keeps (Reads C j r) (filter_step C i i.spec.envoy_filter)
  filter_block-Keeps ne =
      filter_step-Keeps L now i i.spec.envoy_filter (filter_keys-Misses i i.spec.envoy_filter ne)

  pub status_block-Keeps :
      Kind.scheduler_install ≢ j.kind
      → Keeps
          (Reads C j r)
          (update_status C now i true "Reconciled" "SchedulerInstall resources are ready")
  status_block-Keeps ne = update_status-Keeps L now i true _ _ (kind_ne ne)
