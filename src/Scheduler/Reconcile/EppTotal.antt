-- ===== src/Scheduler/Reconcile/EppTotal.antt =====
-- The EPP of a `SchedulerInstall`, on a healthy cluster. The API lets no update change the selector of
-- a Deployment or the role of a RoleBinding, and `reconcileEPPDeployment` and `reconcileEPPRBAC` of
-- controllers/schedulerinstall_controller.go set both on what they find.
use llm_d_scheduler_sim_oper.Base.{some, ◌≡◌, refl, sym}
use llm_d_scheduler_sim_oper.Api.{SchedulerEppConfig, SchedulerInstall}
use llm_d_scheduler_sim_oper.Kube.Objects.{Kind, Object}
use llm_d_scheduler_sim_oper.Kube.Calls.{Result, ok, Call}
use llm_d_scheduler_sim_oper.Kube.Triples.{Keeps}
use llm_d_scheduler_sim_oper.Kube.Client.{Client, IsLawful}
use llm_d_scheduler_sim_oper.Kube.Client.Writes.{Reads, Keeps-create_or_update, kind_ne}
use llm_d_scheduler_sim_oper.Kube.Client.Healthy.{
  IsHealthy, Returns, Returns-seq, Returns-owned, Returns-mutate, Returns-mutate_there,
}
use llm_d_scheduler_sim_oper.Kube.Leads.{Leads, Returns-lead, Keeps-reading}
use llm_d_scheduler_sim_oper.Scheduler.EppContent.{
  epp_key, epp_rbac_key, epp_labels, epp_role_binding,
}
use llm_d_scheduler_sim_oper.Scheduler.Epp.{
  mutate_deployment, mutate_role_binding, reconcile_scheduler_epp, reconcile_epp_service_account,
  reconcile_epp_rbac, reconcile_epp_config_map, reconcile_epp_deployment, reconcile_epp_service,
}
use llm_d_scheduler_sim_oper.Scheduler.Epp.Frame.{
  service_account-Keeps, rbac-Keeps, config_map-Keeps,
}

module _ (C : Client) (i : SchedulerInstall) (e : SchedulerEppConfig) where
  -- A Deployment of the EPP's name, if it is there, has the selector that the EPP has.
  abbrev pub SelectorFits : Result (Object Kind.deployment) → Type 0
  SelectorFits r =
      (p : Object Kind.deployment) → r ≡ ok p → p.body.spec.selector ≡ some (epp_labels i e)

  -- A RoleBinding of the EPP's name, if it is there, binds the EPP's Role.
  abbrev pub RoleFits : Result (Object Kind.role_binding) → Type 0
  RoleFits r =
      (p : Object Kind.role_binding)
      → r ≡ ok p
      → p.body.spec.role_ref ≡ (epp_role_binding i e).role_ref

  pub record EppFits (s : C.State) : Type 0 where
    pub deployment : SelectorFits (C.get s (epp_key i e Kind.deployment))
    pub binding : RoleFits (C.get s (epp_rbac_key i e Kind.role_binding))

module _ {C : Client} (H : IsHealthy C) (L : IsLawful C) (i : SchedulerInstall)
    (near : i.namespace ≡ i.spec.scheduler_namespace) (e : SchedulerEppConfig) where
  Keeps-EppFits :
      (m : Call C.State (Unit {0}))
      → ((r : Result (Object Kind.deployment)) → Keeps (Reads C (epp_key i e Kind.deployment) r) m)
      → ((r : Result (Object Kind.role_binding))
          → Keeps (Reads C (epp_rbac_key i e Kind.role_binding) r) m)
      → Keeps (EppFits C i e) m
  Keeps-EppFits m deployment binding = record {
    at = λ s h. record {
      deployment = (Keeps-reading _ (SelectorFits C i e) m deployment).at s h.deployment;
      binding = (Keeps-reading _ (RoleFits C i e) m binding).at s h.binding;
    };
  }

  account_Returns : Returns (EppFits C i e) (reconcile_epp_service_account C i e)
  unfolding reconcile_epp_service_account
  account_Returns = Returns-owned H _ _ _ _ near refl (λ b. Returns-mutate H _ _ (λ x. x) (λ x. tt))

  rbac_Returns : Returns (EppFits C i e) (reconcile_epp_rbac C i e)
  unfolding reconcile_epp_rbac mutate_role_binding
  rbac_Returns =
      Returns-seq (Returns-mutate H _ _ _ (λ x. tt))
        (Keeps-EppFits _ (λ r. Keeps-create_or_update L _ _ _ (kind_ne (λ x. cc)))
          (λ r. Keeps-create_or_update L _ _ _ (kind_ne (λ x. cc))))
        (Returns-mutate_there H _ _ (mutate_role_binding i e)
          (λ s h o there. sym (h.binding o there)))

  -- After the RBAC objects only the Deployment matters.
  abbrev Q : C.State → Type 0
  Q s = SelectorFits C i e (C.get s (epp_key i e Kind.deployment))

  rbac_Leads : Leads (EppFits C i e) (reconcile_epp_rbac C i e) Q
  rbac_Leads = record {
    at = λ s h done.
        (Keeps-reading _ (SelectorFits C i e) _ λ r. rbac-Keeps L i e (λ x. cc) (λ x. cc)).at s
          h.deployment;
  }

  config_Returns : Returns Q (reconcile_epp_config_map C i e)
  unfolding reconcile_epp_config_map
  config_Returns = Returns-owned H _ _ _ _ near refl (λ b. Returns-mutate H _ _ _ (λ x. tt))

  deployment_Returns : Returns Q (reconcile_epp_deployment C i e)
  unfolding reconcile_epp_deployment mutate_deployment
  deployment_Returns =
      Returns-owned H _ _ _ _ near refl λ b.
        Returns-mutate_there H _ _ (mutate_deployment i e) (λ s fits o there. sym (fits o there))

  service_Returns : Returns (λ s. Unit {0}) (reconcile_epp_service C i e)
  unfolding reconcile_epp_service
  service_Returns = Returns-owned H _ _ _ _ near refl (λ b. Returns-mutate H _ _ _ (λ x. tt))

  pub epp_Returns : Returns (EppFits C i e) (reconcile_scheduler_epp C i e)
  unfolding reconcile_scheduler_epp
  epp_Returns =
      Returns-seq account_Returns
        (Keeps-EppFits _ (λ r. service_account-Keeps L i e (λ x. cc))
          (λ r. service_account-Keeps L i e (λ x. cc)))
        (Returns-lead rbac_Returns rbac_Leads (
          Returns-seq config_Returns
            (Keeps-reading _ (SelectorFits C i e) _ λ r. config_map-Keeps L i e (λ x. cc))
            (Returns-lead deployment_Returns (record { at = λ s h done. tt }) service_Returns)))
