-- ===== src/Scheduler/Epp/Frame.antt =====
-- `reconcileSchedulerEPP` touches six objects.
use llm_d_scheduler_sim_oper.Base.{List, [], ◌∷◌, ◌≢◌}
use llm_d_scheduler_sim_oper.Api.{SchedulerEppConfig, SchedulerInstall}
use llm_d_scheduler_sim_oper.Kube.Objects.{Kind, Key, Object}
use llm_d_scheduler_sim_oper.Kube.Calls.{Result}
use llm_d_scheduler_sim_oper.Kube.Triples.{Keeps, Keeps-seq, keeps_rules}
use llm_d_scheduler_sim_oper.Kube.Client.{Client, IsLawful}
use llm_d_scheduler_sim_oper.Kube.Client.Writes.{Reads, Misses, nil, cons, Keeps-create_or_update}
use llm_d_scheduler_sim_oper.Scheduler.EppContent.{epp_key, epp_rbac_key, epp_config_key}
use llm_d_scheduler_sim_oper.Scheduler.Epp.{
  reconcile_epp_service_account, reconcile_epp_rbac, reconcile_epp_config_map,
  reconcile_epp_deployment, reconcile_epp_service, reconcile_scheduler_epp,
}

abbrev pub epp_keys : SchedulerInstall → SchedulerEppConfig → List Key
epp_keys i e =
    epp_key i e Kind.service_account
    ∷ epp_rbac_key i e Kind.role
    ∷ epp_rbac_key i e Kind.role_binding
    ∷ epp_config_key i e
    ∷ epp_key i e Kind.deployment
    ∷ epp_key i e Kind.service
    ∷ []

module _ {C : Client} (L : IsLawful C) (i : SchedulerInstall) (e : SchedulerEppConfig) {j : Key}
    {r : Result (Object j.kind)} where
  pub service_account-Keeps :
      epp_key i e Kind.service_account ≢ j
      → Keeps (Reads C j r) (reconcile_epp_service_account C i e)
  unfolding reconcile_epp_service_account
  service_account-Keeps ne = search (keeps_rules, Keeps-create_or_update L)

  pub rbac-Keeps :
      epp_rbac_key i e Kind.role ≢ j
      → epp_rbac_key i e Kind.role_binding ≢ j
      → Keeps (Reads C j r) (reconcile_epp_rbac C i e)
  unfolding reconcile_epp_rbac
  rbac-Keeps ne ne' = search (keeps_rules, Keeps-create_or_update L)

  pub config_map-Keeps :
      epp_config_key i e ≢ j → Keeps (Reads C j r) (reconcile_epp_config_map C i e)
  unfolding reconcile_epp_config_map
  config_map-Keeps ne = search (keeps_rules, Keeps-create_or_update L)

  pub deployment-Keeps :
      epp_key i e Kind.deployment ≢ j → Keeps (Reads C j r) (reconcile_epp_deployment C i e)
  unfolding reconcile_epp_deployment
  deployment-Keeps ne = search (keeps_rules, Keeps-create_or_update L)

  pub service-Keeps :
      epp_key i e Kind.service ≢ j → Keeps (Reads C j r) (reconcile_epp_service C i e)
  unfolding reconcile_epp_service
  service-Keeps ne = search (keeps_rules, Keeps-create_or_update L)

  pub reconcile_scheduler_epp-Keeps :
      Misses j (epp_keys i e) → Keeps (Reads C j r) (reconcile_scheduler_epp C i e)
  unfolding reconcile_scheduler_epp
  reconcile_scheduler_epp-Keeps
        (cons sa (cons role (cons binding (cons cm (cons dep (cons svc nil)))))) =
      Keeps-seq (service_account-Keeps sa) (
        Keeps-seq (rbac-Keeps role binding)
          (Keeps-seq (config_map-Keeps cm) (Keeps-seq (deployment-Keeps dep) (service-Keeps svc))))
