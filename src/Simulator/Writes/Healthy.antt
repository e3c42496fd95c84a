-- ===== src/Simulator/Writes/Healthy.antt =====
-- On a healthy cluster `create_or` returns no error.
use mathlib.Core.Path.{subst}
use llm_d_scheduler_sim_oper.Base.{ℤ, String, true, false, [], ◌≡◌, refl, sym}
use llm_d_scheduler_sim_oper.Kube.Objects.{Kind, Key, Body, Object}
use llm_d_scheduler_sim_oper.Kube.Calls.{
  Result, ok, err, not_found, failed, Call, return, lift, attempt, ◌>>=◌, branch,
}
use llm_d_scheduler_sim_oper.Kube.Client.{Client}
use llm_d_scheduler_sim_oper.Kube.Client.Healthy.{IsHealthy, set_owner_ok, Returns}
use llm_d_scheduler_sim_oper.Simulator.Writes.{
  create_or, create_if_missing, settle, scale, scaled, replicas_differ,
}

module _ {C : Client} (H : IsHealthy C) where
  settle_ok :
      (k : Key) (b : Body k.kind) (f : Object k.kind → Call C.State (Unit {0})) (s : C.State)
      (found : Result (Object k.kind))
      → C.get s k ≡ found
      → ((o : Object k.kind) → C.get s k ≡ ok o → (f o s).0 ≡ ok tt)
      → (settle C k b f found s).0 ≡ ok tt
  unfolding settle
  settle_ok k b f s (ok o) there h = h o there
  settle_ok k b f s (err not_found) there h = H.create_ok k b s there
  settle_ok k b f s (err (failed m)) there h = absurd (H.get_answers k s m there)

  pub scale_ok :
      (namespace name : String) (n : ℤ) (s : C.State) (o : Object Kind.deployment)
      → C.get s (record { kind = Kind.deployment; namespace = namespace; name = name }) ≡ ok o
      → (scale C namespace name n o s).0 ≡ ok tt
  unfolding scale branch return
  scale_ok namespace name n s o there =
      elim (replicas_differ o.body.spec.replicas n)
        as (λ b.
          ((branch b
              (C.update (record { kind = Kind.deployment; namespace = namespace; name = name })
                (scaled o.body n))
              (return tt))
            s).0
          ≡ ok tt) [ true ↦ H.update_ok _ (scaled o.body n) o s there refl | false ↦ refl ]

module _ {C : Client} (H : IsHealthy C) {P : C.State → Type 0} where
  pub create_or-Returns :
      (owner k : Key) (b : Body k.kind) (f : Object k.kind → Call C.State (Unit {0}))
      → owner.namespace ≡ k.namespace
      → b.meta.owner_references ≡ []
      → ((s : C.State) (o : Object k.kind) → C.get s k ≡ ok o → (f o s).0 ≡ ok tt)
      → Returns P (create_or C owner k b f)
  unfolding create_or ◌>>=◌
  create_or-Returns owner k b f near free h =
      let (b', owned) = set_owner_ok H owner k b near free in
      record {
        at = λ s p.
            subst
              (λ r.
                ((lift r >>= λ b'. attempt (λ s. C.get s k) >>= λ found. settle C k b' f found) s).0
                ≡ ok tt)
              (sym owned) (settle_ok H k b' f s (C.get s k) refl (h s));
      }

  pub missing_Returns :
      (owner k : Key) (b : Body k.kind)
      → owner.namespace ≡ k.namespace
      → b.meta.owner_references ≡ []
      → Returns P (create_if_missing C owner k b)
  unfolding create_if_missing return
  missing_Returns owner k b near free =
      create_or-Returns owner k b (λ o. return tt) near free (λ s o there. refl)
