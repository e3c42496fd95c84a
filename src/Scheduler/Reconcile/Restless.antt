-- ===== src/Scheduler/Reconcile/Restless.antt =====
-- What a successful reconcile of a `SchedulerInstall` does to the resource itself.
use mathlib.Core.Path.{ap}
use llm_d_scheduler_sim_oper.Base.{ℕ, String, some, ◌≡◌, ◌≢◌, refl, sym, ◌∙◌}
use llm_d_scheduler_sim_oper.Api.{Condition, SchedulerEppConfig}
use llm_d_scheduler_sim_oper.Conditions.Ready.{find_ready}
use llm_d_scheduler_sim_oper.Kube.Objects.{Kind, Object}
use llm_d_scheduler_sim_oper.Kube.Calls.{ok}
use llm_d_scheduler_sim_oper.Kube.Client.{Client, IsLawful}
use llm_d_scheduler_sim_oper.Kube.Client.Writes.{ok_injective}
use llm_d_scheduler_sim_oper.Scheduler.EppContent.{epp_key}
use llm_d_scheduler_sim_oper.Scheduler.NetworkContent.{proxy_key}
use llm_d_scheduler_sim_oper.Scheduler.Reconcile.{reconcile, with_defaults, ready_condition}
use llm_d_scheduler_sim_oper.Scheduler.Reconcile.Outcome.{reconcile-Converged}

-- A reconcile of a SchedulerInstall that returns no error changes the stored resource, even if it
-- finds every object as it should be and the resource marked ready, unless the "Ready" condition that
-- it finds bears the time of this very reconcile. The Services of the EPP and of the proxy must be
-- two objects.
pub reconcile_changes_resource :
    {C : Client} (L : IsLawful C) (now : ℕ) (namespace name : String)
    (o : Object Kind.scheduler_install) (s : C.State)
    → C.get s (record { kind = Kind.scheduler_install; namespace = namespace; name = name }) ≡ ok o
    → ((e : SchedulerEppConfig)
        → (with_defaults namespace name o.body.spec).spec.epp ≡ some e
        → proxy_key (with_defaults namespace name o.body.spec)
          ≢ epp_key (with_defaults namespace name o.body.spec) e Kind.service)
    → ((c : Condition) → find_ready o.status.conditions ≡ some c → c.last_transition_time ≢ now)
    → (reconcile C now namespace name s).0 ≡ ok tt
    → C.get
        (reconcile C now namespace name s).1
        (record { kind = Kind.scheduler_install; namespace = namespace; name = name })
      ≢ ok o
unfolding ready_condition
reconcile_changes_resource {C} L now namespace name o s there separate earlier done same =
    let after = (reconcile-Converged L now namespace name o s there separate done).status in
    earlier _
      (ap (λ (p : Object Kind.scheduler_install). find_ready p.status.conditions)
          (ok_injective (sym same ∙ after.stored))
        ∙ after.ready)
      refl
