-- ===== src/Cluster/Grants.antt =====
-- Two SchedulerInstalls for one simulator namespace, which share the ReferenceGrant
-- "allow-scheduler-httproute" that `reconcileReferenceGrant` of
-- controllers/schedulerinstall_controller.go writes there.
use mathlib.Core.Path.{subst}
use llm_d_scheduler_sim_oper.Base.{
  ℕ, String, str_eq, str_eq_iff, Bool, true, false, ◌&&◌, some, ◌≡◌, ◌≢◌, refl, sym, ◌∙◌, arith,
}
use llm_d_scheduler_sim_oper.Api.{SchedulerEppConfig, SchedulerRoutingConfig, SchedulerInstall}
use llm_d_scheduler_sim_oper.Kube.Objects.{Kind, Body, Object, Value}
use llm_d_scheduler_sim_oper.Kube.Calls.{ok}
use llm_d_scheduler_sim_oper.Kube.Client.{Client, IsLawful, Holds, gvk_supported}
use llm_d_scheduler_sim_oper.Scheduler.EppContent.{epp_key}
use llm_d_scheduler_sim_oper.Scheduler.NetworkContent.{
  proxy_key, reference_grant_gvk, http_route_key, http_route_spec, reference_grant_key,
  reference_grant_spec,
}
use llm_d_scheduler_sim_oper.Scheduler.Traffic.{route_allowed, backend_namespace, granted_lem}
use llm_d_scheduler_sim_oper.Scheduler.Reconcile.{reconcile, with_defaults}
use llm_d_scheduler_sim_oper.Scheduler.Reconcile.Converged.{Converged, Enabled}
use llm_d_scheduler_sim_oper.Scheduler.Reconcile.Outcome.{reconcile-Converged}

-- The body of a grant that keeps the route of `i` from its backend.
abbrev pub Denies : SchedulerInstall → SchedulerRoutingConfig → Body Kind.reference_grant → Type 0
Denies i r b =
    (spec : Value) × (b.spec ≡ some spec)
    × (route_allowed (http_route_key i r) (http_route_spec i r) (reference_grant_key i) spec
        ≡ false)

-- The route leaves its own namespace for the simulator's.
pub record NeedsGrant (i : SchedulerInstall) (r : SchedulerRoutingConfig) : Type 0 where
  pub backend : backend_namespace i r ≡ i.spec.simulator_namespace
  pub apart : i.spec.simulator_namespace ≢ i.spec.scheduler_namespace

differ_false : (a b : String) → a ≢ b → str_eq a b ≡ false
differ_false a b ne = ground (arith, str_eq_iff a b)

and_false : (b : Bool) → (b && false) ≡ false
and_false true = refl
and_false false = refl

module _ (i j : SchedulerInstall) (r : SchedulerRoutingConfig)
    (shared : i.spec.simulator_namespace ≡ j.spec.simulator_namespace) where
  other_grant_denies :
      NeedsGrant i r
      → i.spec.scheduler_namespace ≢ j.spec.scheduler_namespace
      → route_allowed
          (http_route_key i r)
          (http_route_spec i r)
          (reference_grant_key i)
          (reference_grant_spec j)
        ≡ false
  other_grant_denies n ne =
      subst
        (λ n.
          route_allowed (http_route_key i r) (http_route_spec i r)
            (record {
              kind = Kind.reference_grant;
              namespace = n;
              name = "allow-scheduler-httproute";
            })
            (reference_grant_spec j)
          ≡ false)
        (sym shared)
        (granted_lem i j r
          ∙ rw (n.backend, differ_false _ _ n.apart, differ_false _ _ (λ x. ne (sym x)))
              (and_false _))

  grant-Denies :
      {C : Client} (now : ℕ) (s : C.State) (p : SchedulerRoutingConfig)
      → Converged C j now s
      → Enabled C j j.spec.routing (λ p. p.enabled) p
      → gvk_supported C reference_grant_gvk ≡ true
      → NeedsGrant i r
      → i.spec.scheduler_namespace ≢ j.spec.scheduler_namespace
      → Holds C (reference_grant_key i) (Denies i r) s
  grant-Denies {C} now s p c on supported n ne =
      let h = c.grant p on supported in
      subst
        (λ n.
          Holds C
            (record {
              kind = Kind.reference_grant;
              namespace = n;
              name = "allow-scheduler-httproute";
            })
            (Denies i r) s)
        (sym shared)
        (record {
          object = h.object;
          stored = h.stored;
          meets = (reference_grant_spec j, h.meets.0, other_grant_denies n ne);
        })

-- Let two SchedulerInstalls have one simulator namespace and different scheduler namespaces, and let
-- the route of the first lead into the simulator namespace from another. After a reconcile of the
-- second that returns no error, with its routing enabled, the one grant that both write no longer
-- allows the first one's route.
pub second_install-Denies :
    {C : Client} (L : IsLawful C) (now : ℕ) (namespace name : String)
    (o : Object Kind.scheduler_install) (s : C.State) (i : SchedulerInstall)
    (r p : SchedulerRoutingConfig)
    → C.get s (record { kind = Kind.scheduler_install; namespace = namespace; name = name }) ≡ ok o
    → ((e : SchedulerEppConfig)
        → (with_defaults namespace name o.body.spec).spec.epp ≡ some e
        → proxy_key (with_defaults namespace name o.body.spec)
          ≢ epp_key (with_defaults namespace name o.body.spec) e Kind.service)
    → (reconcile C now namespace name s).0 ≡ ok tt
    → Enabled C
        (with_defaults namespace name o.body.spec)
        (with_defaults namespace name o.body.spec).spec.routing
        (λ p. p.enabled)
        p
    → gvk_supported C reference_grant_gvk ≡ true
    → NeedsGrant i r
    → i.spec.simulator_namespace
      ≡ (with_defaults namespace name o.body.spec).spec.simulator_namespace
    → i.spec.scheduler_namespace
      ≢ (with_defaults namespace name o.body.spec).spec.scheduler_namespace
    → Holds C (reference_grant_key i) (Denies i r) (reconcile C now namespace name s).1
second_install-Denies L now namespace name o s i r p there separate done on supported n same ne =
    grant-Denies i (with_defaults namespace name o.body.spec) r same now _ p
      (reconcile-Converged L now namespace name o s there separate done) on supported n ne
