-- ===== src/Cluster/Stays.antt =====
-- A SchedulerInstall beside SimulatorDeployments, whose reconciles come in any number and order.
use llm_d_scheduler_sim_oper.Base.{ℕ, String, some, ◌≡◌, ◌≢◌, ◌∙◌}
use llm_d_scheduler_sim_oper.Api.{SchedulerEppConfig, SchedulerInstall, SimulatorDeploymentSpec}
use llm_d_scheduler_sim_oper.Kube.Objects.{Kind, Key, Body}
use llm_d_scheduler_sim_oper.Kube.Client.{Client, IsLawful, Holds}
use llm_d_scheduler_sim_oper.Kube.Client.Writes.{kind_ne}
use llm_d_scheduler_sim_oper.Scheduler.EppContent.{epp_key}
use llm_d_scheduler_sim_oper.Scheduler.Epp.Installed.{EppInstalled}
use llm_d_scheduler_sim_oper.Scheduler.Reconcile.Converged.{Converged}
use llm_d_scheduler_sim_oper.Simulator.Reconcile.{reconcile_request, simulator_with_defaults}
use llm_d_scheduler_sim_oper.Simulator.Reconcile.Additive.{
  NotScaled, reconcile_request_keeps_present,
}
use llm_d_scheduler_sim_oper.Simulator.Reconcile.Frame.{
  other_kind-Untouched, reconcile_request-frame,
}

-- The EPP of the SchedulerInstall is none of the Deployments that the SimulatorDeployment of this
-- namespace and name may scale.
pub record EppApart (i : SchedulerInstall) (namespace name : String) : Type 0 where
  pub apart :
      (e : SchedulerEppConfig) (spec : SimulatorDeploymentSpec)
      → i.spec.epp ≡ some e
      → NotScaled (simulator_with_defaults namespace name spec) (epp_key i e Kind.deployment)

-- The states that reconciles of SimulatorDeployments lead to, each with its own time, and each
-- whether it succeeds or fails.
pub data SimulatorRuns (C : Client) (i : SchedulerInstall) (s : C.State) : C.State → Type 0 where
  here : SimulatorRuns C i s s
  next :
      {t : C.State}
      → SimulatorRuns C i s t
      → (now : ℕ) (namespace name : String) → EppApart i namespace name
      → SimulatorRuns C i s (reconcile_request C now namespace name t).1

module _ {C : Client} (L : IsLawful C) (now : ℕ) (namespace name : String) (s : C.State) where
  other_kind :
      (j : Key)
      → Kind.deployment ≢ j.kind
      → Kind.simulator_deployment ≢ j.kind
      → (spec : SimulatorDeploymentSpec) → NotScaled (simulator_with_defaults namespace name spec) j
  other_kind j dep sim spec = record {
    prefill = kind_ne dep;
    decode = kind_ne dep;
    single = kind_ne dep;
    resource = kind_ne sim;
  }

  stays :
      (j : Key) (Q : Body j.kind → Type 0)
      → ((spec : SimulatorDeploymentSpec)
          → NotScaled (simulator_with_defaults namespace name spec) j)
      → Holds C j Q s
      → Holds C j Q (reconcile_request C now namespace name s).1
  stays j Q n h = record {
    object = h.object;
    stored = reconcile_request_keeps_present L now namespace name s j h.object h.stored n;
    meets = h.meets;
  }

  stays_by_kind :
      (j : Key) (Q : Body j.kind → Type 0)
      → Kind.deployment ≢ j.kind
      → Kind.simulator_deployment ≢ j.kind
      → Holds C j Q s
      → Holds C j Q (reconcile_request C now namespace name s).1
  stays_by_kind j Q dep sim = stays j Q (other_kind j dep sim)

  module _ (i : SchedulerInstall) (a : EppApart i namespace name) where
    epp_stays :
        (e : SchedulerEppConfig)
        → i.spec.epp ≡ some e
        → EppInstalled i e C s
        → EppInstalled i e C (reconcile_request C now namespace name s).1
    epp_stays e there h = record {
      account = stays_by_kind _ _ (λ x. cc) (λ x. cc) h.account;
      role = stays_by_kind _ _ (λ x. cc) (λ x. cc) h.role;
      binding = stays_by_kind _ _ (λ x. cc) (λ x. cc) h.binding;
      config = stays_by_kind _ _ (λ x. cc) (λ x. cc) h.config;
      deployment = stays _ _ (λ spec. a.apart e spec there) h.deployment;
      service = stays_by_kind _ _ (λ x. cc) (λ x. cc) h.service;
    }

    Converged-step :
        (at : ℕ)
        → Converged C i at s
        → Converged C i at (reconcile_request C now namespace name s).1
    Converged-step at c = record {
      epp = λ e on. epp_stays e on.0 (c.epp e on);
      gateway = λ g on h. stays_by_kind _ _ (λ x. cc) (λ x. cc) (c.gateway g on h);
      proxy = stays_by_kind _ _ (λ x. cc) (λ x. cc) c.proxy;
      grant = λ p on h. stays_by_kind _ _ (λ x. cc) (λ x. cc) (c.grant p on h);
      route = λ p on h. stays_by_kind _ _ (λ x. cc) (λ x. cc) (c.route p on h);
      rule = λ d on h. stays_by_kind _ _ (λ x. cc) (λ x. cc) (c.rule d on h);
      filter = λ e f epp on h.
          let k = c.filter e f epp on h in
          record {
            service = k.service;
            service_stored =
                reconcile_request_keeps_present L now namespace name s _ k.service k.service_stored
                  (other_kind _ (λ x. cc) (λ x. cc));
            addressed = k.addressed;
            filter = stays_by_kind _ _ (λ x. cc) (λ x. cc) k.filter;
          };
      no_filter = λ f there off named h.
          reconcile_request-frame L now namespace name s _
            (λ o x. other_kind-Untouched _ (λ y. cc) (λ y. cc) (λ y. cc) (λ y. cc))
          ∙ c.no_filter f there off named h;
      status = record {
        resource = c.status.resource;
        stored =
            reconcile_request_keeps_present L now namespace name s _ c.status.resource
              c.status.stored (other_kind _ (λ x. cc) (λ x. cc));
        ready = c.status.ready;
      };
    }

-- Once a SchedulerInstall's resources are as the resource describes them, they stay so through any
-- number of reconciles of SimulatorDeployments, in any order, of any specs, and whichever of them
-- fail, if no SimulatorDeployment scales a Deployment of the name and namespace of the EPP. This
-- covers a proxy Service that is also the Service of a SimulatorDeployment.
pub SimulatorRuns-Converged :
    {C : Client} (L : IsLawful C) (i : SchedulerInstall) (now : ℕ) {s t : C.State}
    → SimulatorRuns C i s t
    → Converged C i now s
    → Converged C i now t
SimulatorRuns-Converged L i now here c = c
SimulatorRuns-Converged L i now (next {t = t} runs later namespace name a) c =
    Converged-step L later namespace name t i a now (SimulatorRuns-Converged L i now runs c)
