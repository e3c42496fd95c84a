-- ===== src/Scheduler/Reconcile/Owned.antt =====
-- Whose the objects are that a reconcile of a `SchedulerInstall` creates.
use mathlib.Core.Path.{subst}
use llm_d_scheduler_sim_oper.Kube.Client.Writes.{ok_injective}
use llm_d_scheduler_sim_oper.Base.{ℕ, String, Option, none, some, ◌≡◌, ◌≢◌, inl, inr, refl}
use llm_d_scheduler_sim_oper.Api.{
  LoadBalancingConfig, SchedulerEnvoyFilterConfig, SchedulerEppConfig, SchedulerGatewayConfig,
  SchedulerRoutingConfig, SchedulerInstall,
}
use llm_d_scheduler_sim_oper.Kube.Objects.{Kind, Key, ObjectMeta, Body, Object, IsControlledBy}
use llm_d_scheduler_sim_oper.Kube.Calls.{Result, ok, err, not_found, failed}
use llm_d_scheduler_sim_oper.Kube.Triples.{
  Keeps, Keeps-seq, Keeps-branch, Keeps-bind, Keeps-read, Keeps-attempt, Keeps-fail, Keeps-return,
  Keeps-when, Keeps-ignore_not_found, Keeps-on_enabled,
}
use llm_d_scheduler_sim_oper.Kube.Client.{Client, IsLawful}
use llm_d_scheduler_sim_oper.Scheduler.EppContent.{owner_key}
use llm_d_scheduler_sim_oper.Scheduler.Epp.{
  mutate_role, mutate_role_binding, mutate_config_map, mutate_deployment, mutate_epp_service,
  reconcile_epp_service_account, reconcile_epp_rbac, reconcile_epp_config_map,
  reconcile_epp_deployment, reconcile_epp_service, reconcile_scheduler_epp,
}
use llm_d_scheduler_sim_oper.Scheduler.NetworkContent.{mutate_proxy_service, add_owner_labels}
use llm_d_scheduler_sim_oper.Scheduler.Network.{
  reconcile_proxy_service, reconcile_gateway, reconcile_http_route, reconcile_reference_grant,
  reconcile_destination_rule,
}
use llm_d_scheduler_sim_oper.Scheduler.EnvoyContent.{envoy_filter_key, envoy_filter_spec}
use llm_d_scheduler_sim_oper.Scheduler.Reconcile.{
  mutate_envoy_filter, write_envoy_filter, reconcile_envoy_filter, delete_envoy_filter,
  filter_with_epp, filter_step, routing_step, reconcile_install, checked, fetched, with_defaults,
  reconcile,
}
use llm_d_scheduler_sim_oper.Scheduler.Reconcile.Frame.{update_status-Keeps}
use llm_d_scheduler_sim_oper.Scheduler.Reconcile.Traced.{
  Traced, missing, Keeps-Traced, Traced-create_or_update, Traced-mutate, Traced-delete,
  Traced-owned,
}

module _ {C : Client} (L : IsLawful C) (i : SchedulerInstall) (j : Key) where
  abbrev P : C.State → Type 0
  P = Traced C (owner_key i) j

  epp-Traced : (e : SchedulerEppConfig) → Keeps P (reconcile_scheduler_epp C i e)
  unfolding reconcile_scheduler_epp reconcile_epp_service_account reconcile_epp_rbac
      reconcile_epp_config_map reconcile_epp_deployment reconcile_epp_service mutate_role
      mutate_role_binding mutate_config_map mutate_deployment mutate_epp_service
  epp-Traced e =
      Keeps-seq (Traced-owned L j _ _ _ λ b m. Traced-mutate L j _ b (λ x. x) m (λ x. refl)) (
        Keeps-seq
          (Keeps-seq (Traced-mutate L j _ _ (mutate_role i e) refl (λ x. refl))
            (Traced-mutate L j _ _ (mutate_role_binding i e) refl (λ x. refl)))
          (Keeps-seq
            (Traced-owned L j _ _ _
              λ b m. Traced-mutate L j _ b (mutate_config_map i e) m (λ x. refl))
            (Keeps-seq
              (Traced-owned L j _ _ _
                λ b m. Traced-mutate L j _ b (mutate_deployment i e) m (λ x. refl))
              (Traced-owned L j _ _ _
                λ b m. Traced-mutate L j _ b (mutate_epp_service i e) (inl m) (λ x. refl)))))

  gateway-Traced : (g : SchedulerGatewayConfig) → Keeps P (reconcile_gateway C i g)
  unfolding reconcile_gateway
  gateway-Traced g =
      Keeps-when _ _ (Traced-owned L j _ _ _ λ b m. Traced-mutate L j _ b _ m (λ x. refl))

  proxy-Traced : Keeps P (reconcile_proxy_service C i)
  unfolding reconcile_proxy_service mutate_proxy_service
  proxy-Traced = Traced-mutate L j _ _ (mutate_proxy_service i) (inr refl) (λ x. refl)

  routing-Traced : (r : SchedulerRoutingConfig) → Keeps P (routing_step C i r)
  unfolding routing_step reconcile_reference_grant reconcile_http_route
  routing-Traced r =
      Keeps-branch _ _ _
        (Keeps-seq (Keeps-when _ _ (Traced-mutate L j _ _ _ refl (λ x. refl)))
          (Keeps-when _ _ (Traced-owned L j _ _ _ λ b m. Traced-mutate L j _ b _ m (λ x. refl))))
        (Keeps-fail _)

  rule-Traced : (d : LoadBalancingConfig) → Keeps P (reconcile_destination_rule C i d)
  unfolding reconcile_destination_rule
  rule-Traced d = Keeps-when _ _ (Traced-mutate L j _ _ _ refl (λ x. refl))

  -- The callback of the EnvoyFilter sets the owner itself.
  mutated_controlled :
      (e : SchedulerEppConfig) (f : SchedulerEnvoyFilterConfig) (ip : String)
      (base made : Body Kind.envoy_filter)
      → mutate_envoy_filter C i e f ip base ≡ ok made
      → IsControlledBy (owner_key i) made.meta.owner_references
  unfolding mutate_envoy_filter
  mutated_controlled e f ip base made done =
      go
        (C.set_controller_reference (owner_key i) (envoy_filter_key i f)
          (add_owner_labels i base.meta))
        refl done
    where
      go :
          (r : Result ObjectMeta)
          → C.set_controller_reference
              (owner_key i)
              (envoy_filter_key i f)
              (add_owner_labels i base.meta)
            ≡ r
          → elim r [
            | ok m ↦ ok (record { meta = m; spec = some (envoy_filter_spec f ip e.port) })
            | err x ↦ err x
          ]
            ≡ ok made
          → IsControlledBy (owner_key i) made.meta.owner_references
      go (ok m) x y =
          subst
            (λ (b : Body Kind.envoy_filter). IsControlledBy (owner_key i) b.meta.owner_references)
            (ok_injective y)
            (L.controller_set (owner_key i) (envoy_filter_key i f) (add_owner_labels i base.meta) m
              x).1
      go (err z) x y = cc

  envoy_filter-Traced :
      (e : SchedulerEppConfig) (f : SchedulerEnvoyFilterConfig)
      → Keeps P (reconcile_envoy_filter C i e f)
  unfolding reconcile_envoy_filter write_envoy_filter
  envoy_filter-Traced e f = Keeps-when _ _ (
      Keeps-bind _ _ (Keeps-read _) λ svc. Keeps-branch _ _ _ (Keeps-fail _) (
        Traced-create_or_update L j _ _ _
          λ base made x from. mutated_controlled e f svc.status.cluster_ip base made x))

  filter_with_epp-Traced :
      (f : SchedulerEnvoyFilterConfig) (o : Option SchedulerEppConfig)
      → Keeps P (filter_with_epp C i f o)
  unfolding filter_with_epp
  filter_with_epp-Traced f none = Keeps-fail _
  filter_with_epp-Traced f (some e) =
      Keeps-branch _ _ _ (Keeps-branch _ _ _ (Keeps-fail _) (envoy_filter-Traced e f))
        (Keeps-fail _)

  filter-Traced : (o : Option SchedulerEnvoyFilterConfig) → Keeps P (filter_step C i o)
  unfolding filter_step delete_envoy_filter
  filter-Traced none = Keeps-return tt
  filter-Traced (some f) = Keeps-branch _ _ _ (filter_with_epp-Traced f i.spec.epp) (
      Keeps-when _ _ (
        Keeps-branch _ _ _ (Keeps-return tt)
          (Keeps-ignore_not_found _ (Traced-delete L j (envoy_filter_key i f)))))

  install-Traced : (now : ℕ) → owner_key i ≢ j → Keeps P (reconcile_install C now i)
  unfolding reconcile_install
  install-Traced now other = Keeps-seq (Keeps-on_enabled i.spec.epp _ _ λ e x t. epp-Traced e) (
      Keeps-seq (Keeps-on_enabled i.spec.gateway _ _ λ g x t. gateway-Traced g) (
        Keeps-seq proxy-Traced (
          Keeps-seq (Keeps-on_enabled i.spec.routing _ _ λ r x t. routing-Traced r) (
            Keeps-seq (Keeps-on_enabled i.spec.destination_rule _ _ λ d x t. rule-Traced d) (
              Keeps-seq (filter-Traced i.spec.envoy_filter)
                (Keeps-Traced λ r. update_status-Keeps L now i _ _ _ other))))))

module _ {C : Client} (L : IsLawful C) (now : ℕ) (namespace name : String) (j : Key)
    (other : record { kind = Kind.scheduler_install; namespace = namespace; name = name } ≢ j) where
  fetched-Traced :
      (found : Result (Object Kind.scheduler_install))
      → Keeps
          (Traced C
            (record { kind = Kind.scheduler_install; namespace = namespace; name = name })
            j)
          (fetched C now namespace name found)
  unfolding fetched checked
  fetched-Traced (ok o) =
      Keeps-branch _ _ _ (Keeps-fail _)
        (install-Traced L (with_defaults namespace name o.body.spec) j now other)
  fetched-Traced (err not_found) = Keeps-return tt
  fetched-Traced (err (failed m)) = Keeps-fail _

-- An object that was missing before a reconcile of a SchedulerInstall, whichever calls fail, is
-- missing afterwards or is there: a Role, a RoleBinding, a ReferenceGrant and a DestinationRule have
-- no owner, a Service has none or the resource as its controller, and an object of any other kind has
-- the resource as its controller. The resource itself is left out.
pub reconcile-Traced :
    {C : Client} (L : IsLawful C) (now : ℕ) (namespace name : String) (j : Key)
    → record { kind = Kind.scheduler_install; namespace = namespace; name = name } ≢ j
    → (s : C.State) → C.get s j ≡ err not_found
    → Traced C
        (record { kind = Kind.scheduler_install; namespace = namespace; name = name })
        j
        (reconcile C now namespace name s).1
unfolding reconcile
reconcile-Traced L now namespace name j other s gone =
    (Keeps-bind _ _ (Keeps-attempt _) (fetched-Traced L now namespace name j other)).at s
      (missing gone)
