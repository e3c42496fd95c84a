-- ===== src/Scheduler/Reconcile/Idle.antt =====
-- The reconcile after a successful one.
use mathlib.Core.Path.{ap, ◌∙◌}
use llm_d_scheduler_sim_oper.Base.{
  ℕ, Bool, true, false, Option, none, some, ◌≡◌, ◌≢◌, refl, sym, if◌then◌else◌,
}
use llm_d_scheduler_sim_oper.Api.{SchedulerEppConfig, SchedulerRoutingConfig, SchedulerInstall}
use llm_d_scheduler_sim_oper.Kube.Objects.{Kind, Body}
use llm_d_scheduler_sim_oper.Kube.Calls.{ok, Call, return, ◌>>◌, branch, on_enabled}
use llm_d_scheduler_sim_oper.Kube.Rests.{
  Rests, Rests-return, Rests-seq, run_after-Rests, Rests-when, Rests-enabled, Rests-mutate,
  Rests-owned,
}
use llm_d_scheduler_sim_oper.Kube.Client.{Client, IsLawful}
use llm_d_scheduler_sim_oper.Kube.Client.Healthy.{IsHealthy}
use llm_d_scheduler_sim_oper.Scheduler.EppContent.{epp_key, epp_rules, epp_role_binding}
use llm_d_scheduler_sim_oper.Scheduler.Epp.{
  mutate_role, mutate_role_binding, reconcile_scheduler_epp, reconcile_epp_service_account,
  reconcile_epp_rbac, reconcile_epp_config_map, reconcile_epp_deployment, reconcile_epp_service,
}
use llm_d_scheduler_sim_oper.Scheduler.Epp.Installed.{EppInstalled}
use llm_d_scheduler_sim_oper.Scheduler.NetworkContent.{proxy_key, mutate_proxy_service}
use llm_d_scheduler_sim_oper.Scheduler.Network.Labels.{labels_same}
use llm_d_scheduler_sim_oper.Scheduler.Network.{
  reconcile_proxy_service, reconcile_gateway, reconcile_http_route, reconcile_reference_grant,
  reconcile_destination_rule,
}
use llm_d_scheduler_sim_oper.Scheduler.Reconcile.{
  filter_step, routing_step, update_status, reconcile_install,
}
use llm_d_scheduler_sim_oper.Scheduler.Reconcile.Converged.{IsProxyService, Converged}
use llm_d_scheduler_sim_oper.Scheduler.Reconcile.Success.{reconcile_install-Converged}
use llm_d_scheduler_sim_oper.Scheduler.Reconcile.Total.{IsServable}
use llm_d_scheduler_sim_oper.Scheduler.Reconcile.FilterIdle.{filter-Rests}

proxy_same :
    (C : Client) (i : SchedulerInstall) (b : Body Kind.service)
    → IsProxyService C i b
    → mutate_proxy_service i b ≡ b
unfolding mutate_proxy_service
proxy_same C i b h = cc (h.cluster_only, h.selector, h.ports)

role_same :
    (i : SchedulerInstall) (e : SchedulerEppConfig) (b : Body Kind.role)
    → b.spec ≡ epp_rules
    → mutate_role i e b ≡ b
unfolding mutate_role
role_same i e b h = ap (λ x. record b { spec = x }) (sym h)

binding_same :
    (i : SchedulerInstall) (e : SchedulerEppConfig) (b : Body Kind.role_binding)
    → b.spec ≡ epp_role_binding i e
    → mutate_role_binding i e b ≡ b
unfolding mutate_role_binding
binding_same i e b h = ap (λ x. record b { spec = x }) (sym h)

module _ {C : Client} (H : IsHealthy C) (L : IsLawful C) (i : SchedulerInstall) (V : IsServable i)
    (s : C.State) where
  epp-Rests :
      (e : SchedulerEppConfig) → EppInstalled i e C s → Rests (reconcile_scheduler_epp C i e) s
  unfolding reconcile_scheduler_epp reconcile_epp_service_account reconcile_epp_rbac
      reconcile_epp_config_map reconcile_epp_deployment reconcile_epp_service
  epp-Rests e h =
      Rests-seq
        (Rests-owned H _ _ _ _ V.near refl (λ b. Rests-mutate L _ b _ _ (λ base q. refl) h.account))
        (Rests-seq
          (Rests-seq (Rests-mutate L _ _ _ _ (role_same i e) h.role)
            (Rests-mutate L _ _ _ _ (binding_same i e) h.binding))
          (Rests-seq
            (Rests-owned H _ _ _ _ V.near refl
              (λ b. Rests-mutate L _ b _ _ (λ base q. q.settled) h.config))
            (Rests-seq
              (Rests-owned H _ _ _ _ V.near refl
                (λ b. Rests-mutate L _ b _ _ (λ base q. q.settled) h.deployment))
              (Rests-owned H _ _ _ _ V.near refl
                (λ b. Rests-mutate L _ b _ _ (λ base q. q.settled) h.service)))))

  module _ (now : ℕ) (c : Converged C i now s) where
    routing-Rests :
        (o : Option SchedulerRoutingConfig)
        → i.spec.routing ≡ o
        → Rests (on_enabled o (λ p. p.enabled) (routing_step C i)) s
    unfolding routing_step reconcile_reference_grant reconcile_http_route on_enabled branch
    routing-Rests none there = Rests-return
    routing-Rests (some p) there = go p.enabled refl
      where
        go : (b : Bool) → p.enabled ≡ b → Rests (if b then routing_step C i p else return tt) s
        go true on = rw (V.pool p there) (
            Rests-seq
              (Rests-when _ λ h.
                Rests-mutate L _ _ _ _ (λ base q. cc (q.0, labels_same i base.meta q.1))
                  (c.grant p (there, on) h))
              (Rests-when _ λ h. Rests-owned H _ _ _ _ V.near refl λ b.
                Rests-mutate L _ b _ _ (λ base q. ap (λ x. record base { spec = x }) (sym q))
                  (c.route p (there, on) h)))
        go false off = Rests-return

    steps-Rests :
        (n : Call C.State (Unit {0}))
        → (do
          on_enabled i.spec.epp (λ e. e.enabled) (reconcile_scheduler_epp C i)
          on_enabled i.spec.gateway (λ g. g.enabled) (reconcile_gateway C i)
          reconcile_proxy_service C i
          on_enabled i.spec.routing (λ r. r.enabled) (routing_step C i)
          on_enabled i.spec.destination_rule (λ d. d.enabled) (reconcile_destination_rule C i)
          filter_step C i i.spec.envoy_filter
          n)
            s
          ≡ n s
    unfolding reconcile_gateway reconcile_proxy_service reconcile_destination_rule
    steps-Rests n =
        run_after-Rests _ (Rests-enabled i.spec.epp _ _ λ e on. epp-Rests e (c.epp e on))
        ∙ run_after-Rests _ (
            Rests-enabled i.spec.gateway _ _ λ g on. Rests-when _ λ h.
              Rests-owned H _ _ _ _ V.near refl λ b.
                Rests-mutate L _ b _ _ (λ base q. ap (λ x. record base { spec = x }) (sym q))
                  (c.gateway g on h))
        ∙ run_after-Rests _ (Rests-mutate L _ _ _ _ (proxy_same C i) c.proxy)
        ∙ run_after-Rests _ (routing-Rests i.spec.routing refl)
        ∙ run_after-Rests _ (
            Rests-enabled i.spec.destination_rule _ _ λ d on. Rests-when _ λ h.
              Rests-mutate L _ _ _ _ (λ base q. cc (q.0, labels_same i base.meta q.1))
                (c.rule d on h))
        ∙ run_after-Rests n (filter-Rests H L i s now c V.target i.spec.envoy_filter refl)

-- On a healthy cluster, after a run of the steps for a SchedulerInstall that returned no error, the
-- next run for the same spec writes the status and nothing else, the EnvoyFilter included: if the
-- scheduler's namespace is the resource's own, a route to an inference pool has the pool's name, an
-- enabled EnvoyFilter has an enabled EPP and a selector, and the EPP's Service and the proxy Service
-- are two objects.
pub reconcile_install_idle :
    {C : Client} (H : IsHealthy C) (L : IsLawful C) (now later_on : ℕ) (i : SchedulerInstall)
    (s : C.State)
    → IsServable i
    → ((e : SchedulerEppConfig) → i.spec.epp ≡ some e → proxy_key i ≢ epp_key i e Kind.service)
    → (reconcile_install C now i s).0 ≡ ok tt
    → reconcile_install C later_on i (reconcile_install C now i s).1
      ≡ update_status C later_on i true "Reconciled" "SchedulerInstall resources are ready"
          (reconcile_install C now i s).1
unfolding reconcile_install
reconcile_install_idle {C} H L now later_on i s V separate done =
    steps-Rests H L i V _ now ((reconcile_install-Converged L now i separate).at s done) _
