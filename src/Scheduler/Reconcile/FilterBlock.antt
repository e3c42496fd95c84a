-- ===== src/Scheduler/Reconcile/FilterBlock.antt =====
-- The EnvoyFilter block of `Reconcile` and `updateStatus` establish their parts of `Converged`.
use mathlib.Core.Path.{subst}
use llm_d_scheduler_sim_oper.Base.{
  ℕ, String, str_eq, str_eq_iff, true, false, some, ◌≡◌, refl, ◌≢◌, sym, ◌∙◌, arith,
}
use llm_d_scheduler_sim_oper.Api.{SchedulerEnvoyFilterConfig, SchedulerEppConfig, SchedulerInstall}
use llm_d_scheduler_sim_oper.Conditions.{update_conditions}
use llm_d_scheduler_sim_oper.Conditions.Ready.{update_conditions_sets}
use llm_d_scheduler_sim_oper.Kube.Objects.{Kind, Body, Object, ObjectMeta, IsControlledBy}
use llm_d_scheduler_sim_oper.Kube.Calls.{
  Result, ok, err, not_found, failed, ignore_not_found, forgiven,
}
use llm_d_scheduler_sim_oper.Kube.Triples.{
  Ensures, Ensures-when, Ensures-read, Ensures-branch, Ensures-fail, branch-fail_ok,
}
use llm_d_scheduler_sim_oper.Kube.Client.Writes.{ok_injective, Ensures-create_or_update}
use llm_d_scheduler_sim_oper.Kube.Client.{Client, IsLawful, gvk_supported}
use llm_d_scheduler_sim_oper.Scheduler.EppContent.{owner_key, epp_key}
use llm_d_scheduler_sim_oper.Scheduler.NetworkContent.{add_owner_labels}
use llm_d_scheduler_sim_oper.Scheduler.Network.Labels.{merge-Selects, labels_same}
use llm_d_scheduler_sim_oper.Scheduler.EnvoyContent.{
  envoy_filter_gvk, envoy_filter_key, envoy_filter_spec,
}
use llm_d_scheduler_sim_oper.Scheduler.Reconcile.{
  mutate_envoy_filter, reconcile_envoy_filter, delete_envoy_filter, filter_with_epp, filter_step,
  update_status, ready_condition,
}
use llm_d_scheduler_sim_oper.Scheduler.Reconcile.Converged.{FilterInstalled, IsReady}

module _ {C : Client} (L : IsLawful C) (i : SchedulerInstall) where
  -- What the callback makes, with the metadata that `SetControllerReference` gives.
  pub mutate_envoy_filter_made :
      (e : SchedulerEppConfig) (f : SchedulerEnvoyFilterConfig) (ip : String)
      (base : Body Kind.envoy_filter) (m : ObjectMeta)
      → C.set_controller_reference
          (owner_key i)
          (envoy_filter_key i f)
          (add_owner_labels i base.meta)
        ≡ ok m
      → mutate_envoy_filter C i e f ip base
        ≡ ok (record { meta = m; spec = some (envoy_filter_spec f ip e.port) })
  unfolding mutate_envoy_filter
  mutate_envoy_filter_made e f ip base m x =
      subst
        (λ r.
          ◌≡◌ {A = Result (Body Kind.envoy_filter)}
            (elim r [
              | ok m ↦ ok (record { meta = m; spec = some (envoy_filter_spec f ip e.port) })
              | err x ↦ err x
            ])
            (ok (record { meta = m; spec = some (envoy_filter_spec f ip e.port) })))
        (sym x) refl

  made_settled :
      (e : SchedulerEppConfig) (f : SchedulerEnvoyFilterConfig) (ip : String)
      (base : Body Kind.envoy_filter) (m : ObjectMeta)
      → C.set_controller_reference
          (owner_key i)
          (envoy_filter_key i f)
          (add_owner_labels i base.meta)
        ≡ ok m
      → mutate_envoy_filter C i e f ip
          (record { meta = m; spec = some (envoy_filter_spec f ip e.port) })
        ≡ ok (record { meta = m; spec = some (envoy_filter_spec f ip e.port) })
  made_settled e f ip base m x =
      let labels = (L.controller_set _ _ _ m x).0 in
      mutate_envoy_filter_made e f ip _ m (
        rw (labels_same i m (rw labels (merge-Selects i base.meta.labels)))
          (L.controller_set_again _ _ _ m x))

  -- A callback that succeeds has set the spec, has made the resource the controller, and would
  -- change nothing more.
  mutate_envoy_filter_lem :
      (e : SchedulerEppConfig) (f : SchedulerEnvoyFilterConfig) (ip : String)
      (base made : Body Kind.envoy_filter)
      → mutate_envoy_filter C i e f ip base ≡ ok made
      → (made.spec ≡ some (envoy_filter_spec f ip e.port))
        × IsControlledBy (owner_key i) made.meta.owner_references
        × (mutate_envoy_filter C i e f ip made ≡ ok made)
  unfolding mutate_envoy_filter
  mutate_envoy_filter_lem e f ip base made h =
      go
        (C.set_controller_reference (owner_key i) (envoy_filter_key i f)
          (add_owner_labels i base.meta))
        refl h
    where
      go :
          (r : Result ObjectMeta)
          → C.set_controller_reference
              (owner_key i)
              (envoy_filter_key i f)
              (add_owner_labels i base.meta)
            ≡ r
          → (elim r [
            | ok m ↦ ok (record { meta = m; spec = some (envoy_filter_spec f ip e.port) })
            | err x ↦ err x
          ])
            ≡ ok made
          → (made.spec ≡ some (envoy_filter_spec f ip e.port))
            × IsControlledBy (owner_key i) made.meta.owner_references
            × (mutate_envoy_filter C i e f ip made ≡ ok made)
      go (ok m) x y =
          subst
            (λ (b : Body Kind.envoy_filter).
              (b.spec ≡ some (envoy_filter_spec f ip e.port))
              × IsControlledBy (owner_key i) b.meta.owner_references
              × (mutate_envoy_filter C i e f ip b ≡ ok b))
            (ok_injective y) (refl, (L.controller_set _ _ _ m x).1, made_settled e f ip base m x)
      go (err z) x y = cc

  create_or_update_installs :
      (e : SchedulerEppConfig) (f : SchedulerEnvoyFilterConfig) (svc : Object Kind.service)
      (b : Body Kind.envoy_filter) (s : C.State)
      → C.get s (epp_key i e Kind.service) ≡ ok svc
      → svc.status.cluster_ip ≢ ""
      → let m =
          C.create_or_update
            (envoy_filter_key i f)
            b
            (mutate_envoy_filter C i e f svc.status.cluster_ip) in
        (m s).0 ≡ ok tt → FilterInstalled C i e f (m s).1
  create_or_update_installs e f svc b s stored given x = record {
    service = svc;
    service_stored = L.get-create_or_update_ne _ _ _ _ s (λ y. cc) ∙ stored;
    addressed = given;
    filter =
        (Ensures-create_or_update L _ b _ _ (mutate_envoy_filter_lem e f svc.status.cluster_ip)).at
          s x;
  }

  reconcile_envoy_filter_Ensures :
      (e : SchedulerEppConfig) (f : SchedulerEnvoyFilterConfig)
      → gvk_supported C envoy_filter_gvk ≡ true
      → Ensures (reconcile_envoy_filter C i e f) (FilterInstalled C i e f)
  unfolding reconcile_envoy_filter
  reconcile_envoy_filter_Ensures e f supported = Ensures-when _ _ supported (
      Ensures-read _ _ (λ s svc stored b.
        branch-fail_ok (FilterInstalled C i e f) (str_eq svc.status.cluster_ip "") _ _ s (λ given.
          create_or_update_installs e f svc _ s stored
            (λ z. ground (arith, str_eq_iff svc.status.cluster_ip "")))))

  filter_with_epp_Ensures :
      (e : SchedulerEppConfig) (f : SchedulerEnvoyFilterConfig)
      → gvk_supported C envoy_filter_gvk ≡ true
      → Ensures (filter_with_epp C i f (some e)) (FilterInstalled C i e f)
  unfolding filter_with_epp
  filter_with_epp_Ensures e f supported =
      Ensures-branch _ _ _
        (λ _.
          Ensures-branch _ _ _ (λ _. Ensures-fail _)
            (λ _. reconcile_envoy_filter_Ensures e f supported))
        (λ _. Ensures-fail _)

  -- An enabled filter passes its two guards, or `Reconcile` fails.
  pub filter_Ensures :
      (e : SchedulerEppConfig) (f : SchedulerEnvoyFilterConfig)
      → i.spec.epp ≡ some e
      → f.enabled ≡ true
      → gvk_supported C envoy_filter_gvk ≡ true
      → Ensures (filter_step C i (some f)) (FilterInstalled C i e f)
  unfolding filter_step
  filter_Ensures e f epp enabled supported =
      Ensures-branch _ _ _
        (λ _.
          subst (λ o. Ensures (filter_with_epp C i f o) (FilterInstalled C i e f)) (sym epp)
            (filter_with_epp_Ensures e f supported))
        (λ x. cc)

  delete_Ensures :
      (f : SchedulerEnvoyFilterConfig)
      → Ensures
          (ignore_not_found (C.delete (envoy_filter_key i f)))
          (λ s. C.get s (envoy_filter_key i f) ≡ err not_found)
  unfolding ignore_not_found
  delete_Ensures f = record { at = λ s x. go s (C.delete (envoy_filter_key i f) s).0 refl x }
    where
      go :
          (s : C.State) (r : Result (Unit {0}))
          → (C.delete (envoy_filter_key i f) s).0 ≡ r
          → {a : Unit {0}} → forgiven r ≡ ok a
          → C.get (C.delete (envoy_filter_key i f) s).1 (envoy_filter_key i f) ≡ err not_found
      go s (ok a) y x = L.get-delete _ s y
      go s (err not_found) y x = L.delete_missing _ s y
      go s (err (failed z)) y x = cc

  pub no_filter_Ensures :
      (f : SchedulerEnvoyFilterConfig)
      → f.enabled ≡ false
      → f.name ≢ ""
      → gvk_supported C envoy_filter_gvk ≡ true
      → Ensures (filter_step C i (some f)) (λ s. C.get s (envoy_filter_key i f) ≡ err not_found)
  unfolding filter_step delete_envoy_filter
  no_filter_Ensures f disabled named supported =
      Ensures-branch _ _ _ (λ x. cc)
        (λ _. Ensures-when _ _ supported (
          Ensures-branch _ _ _ (λ z. absurd (named ((str_eq_iff f.name "").0 z)))
            (λ _. delete_Ensures f)))

module _ {C : Client} (L : IsLawful C) (now : ℕ) (i : SchedulerInstall) where
  pub status_Ensures :
      Ensures
        (update_status C now i true "Reconciled" "SchedulerInstall resources are ready")
        (IsReady C i now)
  unfolding update_status ready_condition
  status_Ensures = Ensures-read _ _ λ s latest stored b x. record {
    resource = record {
      body = latest.body;
      status = record {
        conditions =
            update_conditions
              (ready_condition C now true "Reconciled" "SchedulerInstall resources are ready")
              latest.status.conditions;
      };
    };
    stored = L.get-update_status _ _ latest s stored x;
    ready = (update_conditions_sets _ latest.status.conditions refl).1;
  }
