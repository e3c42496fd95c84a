-- ===== src/Scheduler/Reconcile/Outcome.antt =====
-- `Reconcile` of the SchedulerInstall controller as a whole, from the stored resource to the result.
use mathlib.Core.Path.{subst}
use mathlib.Core.Option.{some-injective}
use llm_d_scheduler_sim_oper.Base.{
  ℕ, String, Bool, true, false, Option, none, some, ◌≡◌, ◌≢◌, refl, sym, ◌∙◌, ap,
}
use llm_d_scheduler_sim_oper.Api.{SchedulerEppConfig, SchedulerInstall}
use llm_d_scheduler_sim_oper.Kube.Objects.{Kind, Object, Body, Key, ObjectMeta}
use llm_d_scheduler_sim_oper.Kube.Calls.{
  Error, Result, ok, err, Call, ◌>>=◌, lift, branch, fail, on_enabled,
}
use llm_d_scheduler_sim_oper.Kube.Triples.{branch-fail_ok}
use llm_d_scheduler_sim_oper.Kube.Client.{Client, IsLawful, set_owner}
use llm_d_scheduler_sim_oper.Scheduler.EppContent.{epp_key}
use llm_d_scheduler_sim_oper.Scheduler.Epp.{reconcile_scheduler_epp, reconcile_epp_service_account}
use llm_d_scheduler_sim_oper.Scheduler.NetworkContent.{proxy_key}
use llm_d_scheduler_sim_oper.Scheduler.Reconcile.{
  reconcile, fetched, checked, with_defaults, reconcile_install,
}
use llm_d_scheduler_sim_oper.Scheduler.Reconcile.Converged.{Converged, Enabled}
use llm_d_scheduler_sim_oper.Scheduler.Reconcile.Success.{reconcile_install-Converged}

module _ {C : Client} (L : IsLawful C) (now : ℕ) (namespace name : String) where
  fetched-Converged :
      (o : Object Kind.scheduler_install) (s : C.State)
      → ((e : SchedulerEppConfig)
          → (with_defaults namespace name o.body.spec).spec.epp ≡ some e
          → proxy_key (with_defaults namespace name o.body.spec)
            ≢ epp_key (with_defaults namespace name o.body.spec) e Kind.service)
      → (fetched C now namespace name (ok o) s).0 ≡ ok tt
      → Converged C
          (with_defaults namespace name o.body.spec)
          now
          (fetched C now namespace name (ok o) s).1
  unfolding fetched checked
  fetched-Converged o s separate =
      branch-fail_ok (Converged C (with_defaults namespace name o.body.spec) now) _ _ _ s
        λ _ x. (reconcile_install-Converged L now _ separate).at s x

  -- A reconcile of a stored resource that returns no error, whatever objects it found in the
  -- cluster, has brought every enabled part of the resource, with its defaults filled in, into the
  -- cluster as described, for the kinds that the cluster serves, has removed the EnvoyFilter if it
  -- is configured and disabled, and has marked the resource ready. The EPP's Service and the proxy
  -- Service must be two different objects.
  pub reconcile-Converged :
      (o : Object Kind.scheduler_install) (s : C.State)
      → C.get s (record { kind = Kind.scheduler_install; namespace = namespace; name = name })
        ≡ ok o
      → ((e : SchedulerEppConfig)
          → (with_defaults namespace name o.body.spec).spec.epp ≡ some e
          → proxy_key (with_defaults namespace name o.body.spec)
            ≢ epp_key (with_defaults namespace name o.body.spec) e Kind.service)
      → (reconcile C now namespace name s).0 ≡ ok tt
      → Converged C
          (with_defaults namespace name o.body.spec)
          now
          (reconcile C now namespace name s).1
  unfolding reconcile ◌>>=◌
  reconcile-Converged o s there separate x =
      subst
        (λ r.
          (fetched C now namespace name r s).0 ≡ ok tt
          → Converged C (with_defaults namespace name o.body.spec) now
              (fetched C now namespace name r s).1)
        (sym there) (fetched-Converged o s separate) x

-- A call that returns an error and writes nothing.
pub record Refused {S : Type 0} (m : Call S (Unit {0})) (s : S) : Type 0 where
  pub error : Error
  pub result : m s ≡ (err error, s)

module _ {C : Client} (L : IsLawful C) where
  Refused-owner :
      (owner k : Key) (b : Body k.kind) (f : Body k.kind → Call C.State (Unit {0})) (s : C.State)
      → owner.namespace ≢ k.namespace
      → Refused (lift (set_owner C owner k b) >>= f) s
  unfolding ◌>>=◌ set_owner
  Refused-owner owner k b f s ne = go (C.set_controller_reference owner k b.meta) refl
    where
      go :
          (r : Result ObjectMeta)
          → C.set_controller_reference owner k b.meta ≡ r
          → Refused (lift (elim r [ ok m ↦ ok (record b { meta = m }) | err e ↦ err e ]) >>= f) s
      go (ok m) e = absurd (ne (L.owner_in_namespace owner k b.meta m e))
      go (err x) e = record { error = x; result = refl }

module _ {S : Type 0} where
  Refused-seq : (m n : Call S (Unit {0})) (s : S) → Refused m s → Refused (m >>= λ _. n) s
  unfolding ◌>>=◌
  Refused-seq m n s h = record { error = h.error; result = rw h.result refl }

  Refused-on_enabled :
      {A : Type 0} (o : Option A) (enabled : A → Bool) (m : A → Call S (Unit {0})) (a : A) (s : S)
      → o ≡ some a
      → enabled a ≡ true
      → Refused (m a) s
      → Refused (on_enabled o enabled m) s
  unfolding on_enabled
  Refused-on_enabled none enabled m a s e t h = cc
  Refused-on_enabled (some b) enabled m a s e t h =
      let same = some-injective b a e in
      rw (ap enabled same ∙ t) (subst (λ c. Refused (m c) s) (sym same) h)

  Refused-branch :
      (b : Bool) (x : Error) (n : Call S (Unit {0})) (s : S)
      → Refused n s
      → Refused (branch b (fail x) n) s
  unfolding branch fail
  Refused-branch true x n s h = record { error = x; result = refl }
  Refused-branch false x n s h = h

module _ {C : Client} (L : IsLawful C) (now : ℕ) (namespace name : String) where
  install-Refused :
      (i : SchedulerInstall) (e : SchedulerEppConfig) (s : C.State)
      → Enabled C i i.spec.epp (λ e. e.enabled) e
      → i.namespace ≢ i.spec.scheduler_namespace
      → Refused (reconcile_install C now i) s
  unfolding reconcile_install reconcile_scheduler_epp reconcile_epp_service_account
  install-Refused i e s on ne =
      search
        (
          Refused-seq,
          Refused-owner L,
          Refused-on_enabled i.spec.epp (λ e. e.enabled) _ e s on.0 on.1,
        )
        depth 12

  fetched-Refused :
      (o : Object Kind.scheduler_install) (e : SchedulerEppConfig) (s : C.State)
      → Enabled C
          (with_defaults namespace name o.body.spec)
          (with_defaults namespace name o.body.spec).spec.epp
          (λ e. e.enabled)
          e
      → namespace ≢ (with_defaults namespace name o.body.spec).spec.scheduler_namespace
      → Refused (fetched C now namespace name (ok o)) s
  unfolding fetched checked
  fetched-Refused o e s on ne = Refused-branch _ _ _ s (install-Refused _ e s on ne)

  -- If the EPP is enabled and the scheduler's namespace is not the one of the resource, a reconcile
  -- returns an error before it writes anything: the API allows no owner in another namespace.
  pub reconcile_cross_namespace :
      (o : Object Kind.scheduler_install) (e : SchedulerEppConfig) (s : C.State)
      → C.get s (record { kind = Kind.scheduler_install; namespace = namespace; name = name })
        ≡ ok o
      → Enabled C
          (with_defaults namespace name o.body.spec)
          (with_defaults namespace name o.body.spec).spec.epp
          (λ e. e.enabled)
          e
      → namespace ≢ (with_defaults namespace name o.body.spec).spec.scheduler_namespace
      → Refused (reconcile C now namespace name) s
  unfolding reconcile ◌>>=◌
  reconcile_cross_namespace o e s there on ne =
      let h = fetched-Refused o e s on ne in record { error = h.error; result = rw there h.result }
