-- ===== src/Scheduler/Reconcile/Poised.antt =====
-- The states that an enabled EnvoyFilter needs: the EPP's Service has an address, and no other owner
-- controls the EnvoyFilter. The steps before `reconcileEnvoyFilter` lead to such a state and keep it.
use mathlib.Core.Path.{subst}
use llm_d_scheduler_sim_oper.Base.{ℕ, true, some, ◌≡◌, ◌≢◌, refl}
use llm_d_scheduler_sim_oper.Api.{SchedulerEppConfig, SchedulerEnvoyFilterConfig, SchedulerInstall}
use llm_d_scheduler_sim_oper.Kube.Objects.{Kind, Key, IsFreeFor, Body, Object}
use llm_d_scheduler_sim_oper.Kube.Calls.{Result, ok, Call, on_enabled}
use llm_d_scheduler_sim_oper.Kube.Triples.{Keeps}
use llm_d_scheduler_sim_oper.Kube.Leads.{
  Leads, Leads-seq, Leads-lift, Leads-on_enabled, Keeps-reading,
}
use llm_d_scheduler_sim_oper.Kube.Client.{Client, IsLawful, Holds}
use llm_d_scheduler_sim_oper.Kube.Client.Writes.{Reads, Keeps-Holds, ok_injective}
use llm_d_scheduler_sim_oper.Kube.Client.Healthy.{IsHealthy}
use llm_d_scheduler_sim_oper.Scheduler.EppContent.{owner_key, epp_key}
use llm_d_scheduler_sim_oper.Scheduler.EnvoyContent.{envoy_filter_key}
use llm_d_scheduler_sim_oper.Scheduler.Epp.{
  mutate_epp_service, reconcile_epp_service, reconcile_scheduler_epp,
}
use llm_d_scheduler_sim_oper.Scheduler.Epp.Frame.{
  service_account-Keeps, rbac-Keeps, config_map-Keeps, deployment-Keeps,
}
use llm_d_scheduler_sim_oper.Scheduler.Reconcile.EppTotal.{EppFits}
use llm_d_scheduler_sim_oper.Scheduler.Reconcile.Steps.{epp_block-Keeps}

-- The Service, if it is there, has an address.
abbrev pub HasAddress : Result (Object Kind.service) → Type 0
HasAddress r = (p : Object Kind.service) → r ≡ ok p → p.status.cluster_ip ≢ ""

-- The Service is there and has an address.
abbrev pub IsAddressed : Result (Object Kind.service) → Type 0
IsAddressed r = (p : Object Kind.service) × (r ≡ ok p) × (p.status.cluster_ip ≢ "")

-- The EnvoyFilter, if it is there, has no other controller.
abbrev pub IsOpen : Key → Result (Object Kind.envoy_filter) → Type 0
IsOpen owner r =
    (p : Object Kind.envoy_filter) → r ≡ ok p → IsFreeFor owner p.body.meta.owner_references

module _ (C : Client) (i : SchedulerInstall) where
  abbrev pub FilterOn : SchedulerEnvoyFilterConfig → Type 0
  FilterOn f = (i.spec.envoy_filter ≡ some f) × (f.enabled ≡ true)

  -- Where an EnvoyFilter is enabled: what a reconcile needs of the objects that are there before it.
  pub record FilterReady (s : C.State) : Type 0 where
    pub address :
        (f : SchedulerEnvoyFilterConfig) (e : SchedulerEppConfig)
        → FilterOn f
        → i.spec.epp ≡ some e
        → HasAddress (C.get s (epp_key i e Kind.service))
    pub owner :
        (f : SchedulerEnvoyFilterConfig)
        → FilterOn f
        → IsOpen (owner_key i) (C.get s (envoy_filter_key i f))

  -- Where the EPP is enabled: what a reconcile needs of the objects that are there before it.
  abbrev pub EppReady : C.State → Type 0
  EppReady s = (e : SchedulerEppConfig) → i.spec.epp ≡ some e → e.enabled ≡ true → EppFits C i e s

  abbrev pub Stored : C.State → Type 0
  Stored = Holds C (owner_key i) (λ b. Unit {0})

  -- Before the EPP is written.
  pub record Starting (s : C.State) : Type 0 where
    pub stored : Stored s
    pub fits : EppReady s
    pub ready : FilterReady s

  -- After the EPP is written.
  pub record Poised (s : C.State) : Type 0 where
    pub stored : Stored s
    pub address :
        (f : SchedulerEnvoyFilterConfig) (e : SchedulerEppConfig)
        → FilterOn f
        → i.spec.epp ≡ some e
        → e.enabled ≡ true
        → IsAddressed (C.get s (epp_key i e Kind.service))
    pub owner :
        (f : SchedulerEnvoyFilterConfig)
        → FilterOn f
        → IsOpen (owner_key i) (C.get s (envoy_filter_key i f))

module _ {C : Client} (i : SchedulerInstall) where
  -- What touches neither the resource, nor the EPP's Service, nor the EnvoyFilter.
  pub Keeps-Poised :
      {A : Type 0} (m : Call C.State A)
      → ((r : Result (Object Kind.scheduler_install)) → Keeps (Reads C (owner_key i) r) m)
      → ((f : SchedulerEnvoyFilterConfig) (e : SchedulerEppConfig)
            (r : Result (Object Kind.service))
          → FilterOn C i f
          → i.spec.epp ≡ some e
          → Keeps (Reads C (epp_key i e Kind.service) r) m)
      → ((f : SchedulerEnvoyFilterConfig) (r : Result (Object Kind.envoy_filter))
          → Keeps (Reads C (envoy_filter_key i f) r) m)
      → Keeps (Poised C i) m
  Keeps-Poised m resource service filter = record {
    at = λ s p. record {
      stored = (Keeps-Holds _ _ m resource).at s p.stored;
      address = λ f e on there enabled.
          (Keeps-reading _ IsAddressed m (λ r. service f e r on there)).at s
            (p.address f e on there enabled);
      owner = λ f on. (Keeps-reading _ (IsOpen (owner_key i)) m (filter f)).at s (p.owner f on);
    };
  }

module _ {C : Client} (H : IsHealthy C) (L : IsLawful C) (i : SchedulerInstall)
    (e : SchedulerEppConfig) where
  service-IsAddressed :
      Leads
        (λ s. HasAddress (C.get s (epp_key i e Kind.service)))
        (reconcile_epp_service C i e)
        (λ s. IsAddressed (C.get s (epp_key i e Kind.service)))
  unfolding reconcile_epp_service mutate_epp_service
  service-IsAddressed = Leads-lift _ _ λ b. record {
    at = λ s p done.
        let a = L.get-create_or_update _ b _ s done in
        (
          a.result,
          a.stored,
          H.address_assigned i.spec.scheduler_namespace e.name b _ s a.result done p a.stored
              (cluster_only a.base a.result.body a.mutated),
        );
  }
    where
      cluster_only :
          (base made : Body Kind.service)
          → ok (mutate_epp_service i e base) ≡ ok made
          → made.spec.service_type ≡ "ClusterIP"
      cluster_only base made x =
          subst (λ (b : Body Kind.service). b.spec.service_type ≡ "ClusterIP") (ok_injective x) refl

  pub epp-IsAddressed :
      Leads
        (λ s. HasAddress (C.get s (epp_key i e Kind.service)))
        (reconcile_scheduler_epp C i e)
        (λ s. IsAddressed (C.get s (epp_key i e Kind.service)))
  unfolding reconcile_scheduler_epp
  epp-IsAddressed =
      Leads-seq (Keeps-reading _ HasAddress _ λ r. service_account-Keeps L i e (λ x. cc)) (
        Leads-seq (Keeps-reading _ HasAddress _ λ r. rbac-Keeps L i e (λ x. cc) (λ x. cc)) (
          Leads-seq (Keeps-reading _ HasAddress _ λ r. config_map-Keeps L i e (λ x. cc)) (
            Leads-seq (Keeps-reading _ HasAddress _ λ r. deployment-Keeps L i e (λ x. cc))
              service-IsAddressed)))

module _ {C : Client} (H : IsHealthy C) (L : IsLawful C) (now : ℕ) (i : SchedulerInstall) where
  -- The EPP's block.
  pub epp_block-Poised :
      Leads
        (Starting C i)
        (on_enabled i.spec.epp (λ e. e.enabled) (reconcile_scheduler_epp C i))
        (Poised C i)
  epp_block-Poised = record {
    at = λ s p done. record {
      stored = (Keeps-Holds _ _ _ (λ r. epp_block-Keeps L now i (λ x. x))).at s p.stored;
      address = λ f e on there enabled.
          (Leads-on_enabled i.spec.epp _ _ e there enabled (epp-IsAddressed H L i e)).at s
            (p.ready.address f e on there) done;
      owner = λ f on.
          (Keeps-reading _ (IsOpen (owner_key i)) _ (λ r. epp_block-Keeps L now i (λ x. x))).at s
            (p.ready.owner f on);
    };
  }
