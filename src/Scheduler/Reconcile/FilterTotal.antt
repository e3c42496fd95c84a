-- ===== src/Scheduler/Reconcile/FilterTotal.antt =====
-- The EnvoyFilter block of `Reconcile` on a healthy cluster.
use mathlib.Core.Path.{subst}
use llm_d_scheduler_sim_oper.Base.{
  String, Bool, true, false, str_eq, str_eq_iff, is_empty_map, Option, none, some, ◌≡◌, ◌≢◌, refl,
  sym, arith,
}
use llm_d_scheduler_sim_oper.Api.{SchedulerEnvoyFilterConfig, SchedulerEppConfig, SchedulerInstall}
use llm_d_scheduler_sim_oper.Kube.Objects.{Kind, IsFreeFor, Body}
use llm_d_scheduler_sim_oper.Kube.Calls.{ok, return, lift, ◌>>=◌, branch, ignore_not_found}
use llm_d_scheduler_sim_oper.Kube.Client.{Client, IsLawful}
use llm_d_scheduler_sim_oper.Kube.Client.Healthy.{
  IsHealthy, Returns, Returns-return, Returns-when, Returns-branch, Returns-guard, Returns-delete,
}
use llm_d_scheduler_sim_oper.Scheduler.EppContent.{owner_key, epp_key}
use llm_d_scheduler_sim_oper.Scheduler.NetworkContent.{proxy_key}
use llm_d_scheduler_sim_oper.Scheduler.EnvoyContent.{envoy_filter_key}
use llm_d_scheduler_sim_oper.Scheduler.Reconcile.{
  mutate_envoy_filter, write_envoy_filter, reconcile_envoy_filter, delete_envoy_filter,
  filter_with_epp, filter_step,
}
use llm_d_scheduler_sim_oper.Scheduler.Reconcile.FilterBlock.{mutate_envoy_filter_made}
use llm_d_scheduler_sim_oper.Scheduler.Reconcile.Poised.{FilterOn, IsOpen, Poised}

-- What an enabled EnvoyFilter needs of the rest of the spec.
pub record HasTarget (i : SchedulerInstall) (f : SchedulerEnvoyFilterConfig) : Type 0 where
  pub epp : SchedulerEppConfig
  pub there : i.spec.epp ≡ some epp
  pub on : epp.enabled ≡ true
  pub selects : is_empty_map f.workload_selector ≡ false
  pub separate : proxy_key i ≢ epp_key i epp Kind.service

module _ {C : Client} (H : IsHealthy C) (L : IsLawful C) (i : SchedulerInstall)
    (near : i.namespace ≡ i.spec.scheduler_namespace) where
  mutate_ok :
      (e : SchedulerEppConfig) (f : SchedulerEnvoyFilterConfig) (ip : String)
      (base : Body Kind.envoy_filter)
      → IsFreeFor (owner_key i) base.meta.owner_references
      → (made : Body Kind.envoy_filter) × (mutate_envoy_filter C i e f ip base ≡ ok made)
  mutate_ok e f ip base free =
      let (m, owned) = H.owner_ok (owner_key i) (envoy_filter_key i f) _ near free in
      (_, mutate_envoy_filter_made L i e f ip base m owned)

  write_ok :
      (e : SchedulerEppConfig) (f : SchedulerEnvoyFilterConfig) (ip : String) (s : C.State)
      → ip ≢ ""
      → IsOpen (owner_key i) (C.get s (envoy_filter_key i f))
      → (write_envoy_filter C i e f ip s).0 ≡ ok tt
  unfolding write_envoy_filter branch
  write_ok e f ip s given free =
      let named : str_eq ip "" ≡ false = ground (arith, str_eq_iff ip "") in
      rw named (
        H.create_or_update_ok _ _ _ s (λ x. mutate_ok e f ip _ tt)
          (λ o x. let (made, done) = mutate_ok e f ip o.body (free o x) in (made, done, tt)))

  envoy_filter_Returns :
      (e : SchedulerEppConfig) (f : SchedulerEnvoyFilterConfig)
      → FilterOn C i f
      → i.spec.epp ≡ some e
      → e.enabled ≡ true
      → Returns (Poised C i) (reconcile_envoy_filter C i e f)
  unfolding reconcile_envoy_filter ◌>>=◌
  envoy_filter_Returns e f on there enabled = Returns-when _ (record {
    at = λ s p.
        let (svc, stored, given) = p.address f e on there enabled in
        subst
          (λ r. ((lift r >>= λ svc. write_envoy_filter C i e f svc.status.cluster_ip) s).0 ≡ ok tt)
          (sym stored) (write_ok e f svc.status.cluster_ip s given (p.owner f on));
  })

  with_target :
      (f : SchedulerEnvoyFilterConfig)
      → FilterOn C i f
      → HasTarget i f
      → Returns (Poised C i) (filter_with_epp C i f i.spec.epp)
  unfolding filter_with_epp
  with_target f on t =
      subst (λ o. Returns (Poised C i) (filter_with_epp C i f o)) (sym t.there)
        (Returns-branch _ _ _ t.on
          (Returns-guard _ _ _ t.selects (envoy_filter_Returns t.epp f on t.there t.on)))

  delete_Returns :
      (f : SchedulerEnvoyFilterConfig) → Returns (Poised C i) (delete_envoy_filter C i f)
  unfolding delete_envoy_filter branch
  delete_Returns f =
      Returns-when _
        (elim (str_eq f.name "")
          as (λ b.
            Returns (Poised C i)
              (branch b (return tt) (ignore_not_found (C.delete (envoy_filter_key i f))))) [
                | true ↦ Returns-return
                | false ↦ Returns-delete H _
              ])

  pub filter_Returns :
      (o : Option SchedulerEnvoyFilterConfig)
      → i.spec.envoy_filter ≡ o
      → ((f : SchedulerEnvoyFilterConfig)
          → i.spec.envoy_filter ≡ some f
          → f.enabled ≡ true
          → HasTarget i f)
      → Returns (Poised C i) (filter_step C i o)
  unfolding filter_step branch
  filter_Returns none there target = Returns-return
  filter_Returns (some f) there target = go f.enabled refl
    where
      go :
          (b : Bool)
          → f.enabled ≡ b
          → Returns
              (Poised C i)
              (branch b (filter_with_epp C i f i.spec.epp) (delete_envoy_filter C i f))
      go true on = with_target f (there, on) (target f there on)
      go false off = delete_Returns f
