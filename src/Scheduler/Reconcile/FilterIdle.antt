-- ===== src/Scheduler/Reconcile/FilterIdle.antt =====
-- The EnvoyFilter block of a reconcile after a successful one.
use mathlib.Core.Path.{subst}
use llm_d_scheduler_sim_oper.Base.{
  ℕ, true, false, str_eq, str_eq_iff, Option, none, some, ◌≡◌, sym, arith, Bool-cases, inl, inr,
}
use llm_d_scheduler_sim_oper.Api.{SchedulerEppConfig, SchedulerEnvoyFilterConfig, SchedulerInstall}
use llm_d_scheduler_sim_oper.Kube.Rests.{
  Rests, Rests-return, Rests-when, Rests-branch, Rests-guard, Rests-read, Rests-delete,
}
use llm_d_scheduler_sim_oper.Kube.Client.{Client, IsLawful, gvk_supported}
use llm_d_scheduler_sim_oper.Kube.Client.Healthy.{IsHealthy}
use llm_d_scheduler_sim_oper.Scheduler.EnvoyContent.{envoy_filter_gvk}
use llm_d_scheduler_sim_oper.Scheduler.Reconcile.{
  write_envoy_filter, reconcile_envoy_filter, delete_envoy_filter, filter_with_epp, filter_step,
}
use llm_d_scheduler_sim_oper.Scheduler.Reconcile.Converged.{FilterInstalled, Converged}
use llm_d_scheduler_sim_oper.Scheduler.Reconcile.FilterTotal.{HasTarget}

module _ {C : Client} (H : IsHealthy C) (L : IsLawful C) (i : SchedulerInstall) (s : C.State) where
  write-Rests :
      (e : SchedulerEppConfig) (f : SchedulerEnvoyFilterConfig) (k : FilterInstalled C i e f s)
      → Rests (write_envoy_filter C i e f k.service.status.cluster_ip) s
  unfolding write_envoy_filter
  write-Rests e f k =
      Rests-guard _ _ _
        (let named = k.addressed in ground (arith, str_eq_iff k.service.status.cluster_ip ""))
        (record {
          rests = L.create_or_update_same _ _ _ k.filter.object s k.filter.stored k.filter.meets.2;
        })

  envoy_filter-Rests :
      (e : SchedulerEppConfig) (f : SchedulerEnvoyFilterConfig)
      → (gvk_supported C envoy_filter_gvk ≡ true → FilterInstalled C i e f s)
      → Rests (reconcile_envoy_filter C i e f) s
  unfolding reconcile_envoy_filter
  envoy_filter-Rests e f installed = Rests-when _ λ supported.
      let k = installed supported in Rests-read _ _ k.service k.service_stored (write-Rests e f k)

  module _ (now : ℕ) (c : Converged C i now s)
      (target : (f : SchedulerEnvoyFilterConfig)
        → i.spec.envoy_filter ≡ some f
        → f.enabled ≡ true
        → HasTarget i f) where
    enabled-Rests :
        (f : SchedulerEnvoyFilterConfig)
        → i.spec.envoy_filter ≡ some f
        → f.enabled ≡ true
        → Rests (filter_with_epp C i f i.spec.epp) s
    unfolding filter_with_epp
    enabled-Rests f there on =
        let t = target f there on in
        subst (λ o. Rests (filter_with_epp C i f o) s) (sym t.there)
          (Rests-branch _ _ _ t.on (
            Rests-guard _ _ _ t.selects
              (envoy_filter-Rests t.epp f (c.filter t.epp f t.there (there, on)))))

    disabled-Rests :
        (f : SchedulerEnvoyFilterConfig)
        → i.spec.envoy_filter ≡ some f
        → f.enabled ≡ false
        → Rests (delete_envoy_filter C i f) s
    unfolding delete_envoy_filter
    disabled-Rests f there off = Rests-when _ λ supported. elim (Bool-cases (str_eq f.name "")) [
      | inl e ↦ Rests-branch _ _ _ e Rests-return
      | inr e ↦ Rests-guard _ _ _ e (
          Rests-delete H L _
            (c.no_filter f there off (λ x. ground (arith, str_eq_iff f.name "")) supported))
    ]

    pub filter-Rests :
        (o : Option SchedulerEnvoyFilterConfig)
        → i.spec.envoy_filter ≡ o
        → Rests (filter_step C i o) s
    unfolding filter_step
    filter-Rests none there = Rests-return
    filter-Rests (some f) there = elim (Bool-cases f.enabled) [
      | inl on ↦ Rests-branch _ _ _ on (enabled-Rests f there on)
      | inr off ↦ Rests-guard _ _ _ off (disabled-Rests f there off)
    ]
