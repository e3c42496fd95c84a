-- ===== src/Scheduler/Reconcile/Failed.antt =====
-- A reconcile of a `SchedulerInstall` that returns an error.
use llm_d_scheduler_sim_oper.Base.{ℕ, String, Bool, true, ◌≡◌, refl}
use llm_d_scheduler_sim_oper.Api.{SchedulerInstall}
use llm_d_scheduler_sim_oper.Conditions.{update_conditions}
use llm_d_scheduler_sim_oper.Kube.Objects.{Kind, Object}
use llm_d_scheduler_sim_oper.Kube.Calls.{
  Error, Result, ok, err, not_found, failed, lift, ◌>>=◌, fail, return,
}
use llm_d_scheduler_sim_oper.Kube.Failures.{KeepsOnError, KeepsOnError-seq, KeepsOnError-guard}
use llm_d_scheduler_sim_oper.Kube.Client.{Client, IsLawful}
use llm_d_scheduler_sim_oper.Kube.Client.Writes.{Reads, kind_ne}
use llm_d_scheduler_sim_oper.Kube.Client.Healthy.{IsHealthy}
use llm_d_scheduler_sim_oper.Scheduler.EppContent.{owner_key}
use llm_d_scheduler_sim_oper.Scheduler.Network.Frame.{reconcile_proxy_service-Keeps}
use llm_d_scheduler_sim_oper.Scheduler.Reconcile.{
  update_status, reconcile_install, checked, fetched, reconcile, with_defaults, ready_condition,
}
use llm_d_scheduler_sim_oper.Scheduler.Reconcile.Steps.{
  epp_block-Keeps, gateway_block-Keeps, routing_block-Keeps, rule_block-Keeps, filter_block-Keeps,
}

module _ {C : Client} (H : IsHealthy C) (L : IsLawful C) (now : ℕ) (i : SchedulerInstall)
    {r : Result (Object Kind.scheduler_install)} where
  -- The write of the status fails only if the resource cannot be read.
  update_status-KeepsOnError :
      (ready : Bool) (reason message : String)
      → KeepsOnError (Reads C (owner_key i) r) (update_status C now i ready reason message)
  unfolding update_status ◌>>=◌
  update_status-KeepsOnError ready reason message = record {
    at = λ s e p x. go s (C.get s (owner_key i)) refl e p x;
  }
    where
      go :
          (s : C.State) (found : Result (Object Kind.scheduler_install))
          → C.get s (owner_key i) ≡ found
          → (e : Error) → Reads C (owner_key i) r s
          → ((lift found >>= λ latest. C.update_status (owner_key i) (record {
            conditions =
                update_conditions
                  (ready_condition C now ready reason message)
                  latest.status.conditions;
          }))
              s).0
            ≡ err e
          → Reads C
              (owner_key i)
              r
              ((lift found >>= λ latest. C.update_status (owner_key i) (record {
                conditions =
                    update_conditions
                      (ready_condition C now ready reason message)
                      latest.status.conditions;
              }))
                s).1
      go s (ok latest) there e p x = cc (H.update_status_ok (owner_key i) _ latest s there)
      go s (err y) there e p x = p

  install-KeepsOnError : KeepsOnError (Reads C (owner_key i) r) (reconcile_install C now i)
  unfolding reconcile_install
  install-KeepsOnError = KeepsOnError-seq (epp_block-Keeps L now i (λ x. x)) (
      KeepsOnError-seq (gateway_block-Keeps L now i (λ x. cc)) (
        KeepsOnError-seq (reconcile_proxy_service-Keeps L i (kind_ne (λ x. cc))) (
          KeepsOnError-seq (routing_block-Keeps L now i (λ x. cc) (λ x. cc)) (
            KeepsOnError-seq (rule_block-Keeps L now i (λ x. cc)) (
              KeepsOnError-seq (filter_block-Keeps L now i (λ x. cc))
                (update_status-KeepsOnError true _ _))))))

module _ {C : Client} (H : IsHealthy C) (L : IsLawful C) (now : ℕ) (namespace name : String)
    {r : Result (Object Kind.scheduler_install)} where
  fetched-KeepsOnError :
      (found : Result (Object Kind.scheduler_install))
      → KeepsOnError
          (Reads C (record { kind = Kind.scheduler_install; namespace = namespace; name = name }) r)
          (fetched C now namespace name found)
  unfolding fetched checked fail return
  fetched-KeepsOnError (ok o) =
      KeepsOnError-guard _ _
        (install-KeepsOnError H L now (with_defaults namespace name o.body.spec))
  fetched-KeepsOnError (err not_found) = record { at = λ s e p x. p }
  fetched-KeepsOnError (err (failed m)) = record { at = λ s e p x. p }

-- On a cluster where no call fails for a reason of its own, a reconcile of a SchedulerInstall that
-- returns an error, whichever of its steps refused to go on, leaves the stored resource as it was,
-- its status and the condition "Ready" of an earlier reconcile included.
pub reconcile_error_keeps_resource :
    {C : Client} (H : IsHealthy C) (L : IsLawful C) (now : ℕ) (namespace name : String)
    (s : C.State) (e : Error)
    → (reconcile C now namespace name s).0 ≡ err e
    → C.get
        (reconcile C now namespace name s).1
        (record { kind = Kind.scheduler_install; namespace = namespace; name = name })
      ≡ C.get s (record { kind = Kind.scheduler_install; namespace = namespace; name = name })
unfolding reconcile ◌>>=◌
reconcile_error_keeps_resource {C} H L now namespace name s e x =
    ((fetched-KeepsOnError H L now namespace name (C.get s _)).at s e (record { reads = refl })
      x).reads
