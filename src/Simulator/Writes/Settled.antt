-- ===== src/Simulator/Writes/Settled.antt =====
-- What `create_or` makes of its object: it is created as built, or only its replicas change.
use mathlib.Core.Path.{subst, ap}
use llm_d_scheduler_sim_oper.Base.{
  ℤ, int_eq_iff, Bool, true, false, String, Option, none, some, ◌≡◌, ◌≢◌, ◌⊎◌, inl, inr, refl, sym,
  arith,
}
use llm_d_scheduler_sim_oper.Kube.Objects.{Kind, Key, Body, Object, ObjectMeta, IsControlledBy}
use llm_d_scheduler_sim_oper.Kube.Calls.{
  Result, ok, err, not_found, failed, Call, return, fail, lift, attempt, ◌>>=◌, branch,
}
use llm_d_scheduler_sim_oper.Kube.Triples.{Keeps, keeps_rules}
use llm_d_scheduler_sim_oper.Kube.Client.{Client, IsLawful, set_owner}
use llm_d_scheduler_sim_oper.Kube.Client.Writes.{Reads, write_rules, ok_injective}
use llm_d_scheduler_sim_oper.Simulator.Writes.{
  create_or, create_if_missing, settle, scale, scaled, replicas_differ,
}
use llm_d_scheduler_sim_oper.Simulator.Writes.Moves.{Moves}

-- The body is the built one, with the owner as its controller.
pub record IsBuilt {k : Kind} (owner : Key) (built b : Body k) : Type 0 where
  pub spec : b.spec ≡ built.spec
  pub labels : b.meta.labels ≡ built.meta.labels
  pub controlled : IsControlledBy owner b.meta.owner_references

-- The object is there afterwards: created as built if there was none, and else the one that was
-- there, changed by `change` only.
pub record Settled {k : Kind} (owner : Key) (built : Body k) (change : Body k → Body k)
    (before after : Result (Object k)) : Type 0 where
  pub object : Object k
  pub stored : after ≡ ok object
  pub how :
      ((before ≡ err not_found) × IsBuilt owner built object.body)
      ⊎ ((p : Object k) × (before ≡ ok p) × (object.body ≡ change p.body))

module _ {C : Client} (L : IsLawful C) {j : Key} {r : Result (Object j.kind)} where
  settle-Keeps :
      (k : Key) (b : Body k.kind) (f : Object k.kind → Call C.State (Unit {0}))
      (found : Result (Object k.kind))
      → k ≢ j
      → ((o : Object k.kind) → Keeps (Reads C j r) (f o))
      → Keeps (Reads C j r) (settle C k b f found)
  unfolding settle
  settle-Keeps k b f (ok o) ne h = h o
  settle-Keeps k b f (err not_found) ne h = search (write_rules, L)
  settle-Keeps k b f (err (failed m)) ne h = search keeps_rules

  pub create_or-Keeps :
      (owner k : Key) (b : Body k.kind) (f : Object k.kind → Call C.State (Unit {0}))
      → k ≢ j
      → ((o : Object k.kind) → Keeps (Reads C j r) (f o))
      → Keeps (Reads C j r) (create_or C owner k b f)
  unfolding create_or
  create_or-Keeps owner k b f ne h = search (keeps_rules, settle-Keeps k _ f _ ne h)

  pub create_if_missing-Keeps :
      (owner k : Key) (b : Body k.kind)
      → k ≢ j
      → Keeps (Reads C j r) (create_if_missing C owner k b)
  unfolding create_if_missing
  create_if_missing-Keeps owner k b ne = create_or-Keeps owner k b _ ne (λ o. search keeps_rules)

  pub scale-Keeps :
      (namespace name : String) (n : ℤ) (o : Object Kind.deployment)
      → record { kind = Kind.deployment; namespace = namespace; name = name } ≢ j
      → Keeps (Reads C j r) (scale C namespace name n o)
  unfolding scale
  scale-Keeps namespace name n o ne = search (keeps_rules, write_rules, L)

-- The branch for an object that is there changes it by `change` alone.
pub record Changes (C : Client) (k : Key) (change : Body k.kind → Body k.kind)
    (f : Object k.kind → Call C.State (Unit {0})) : Type 0 where
  pub at :
      (s : C.State) (o : Object k.kind)
      → C.get s k ≡ ok o
      → (f o s).0 ≡ ok tt
      → (p : Object k.kind) × (C.get (f o s).1 k ≡ ok p) × (p.body ≡ change o.body)

module _ {C : Client} (L : IsLawful C) (owner k : Key) (b : Body k.kind) where
  pub owned-IsBuilt :
      (r : Result ObjectMeta) (b' : Body k.kind)
      → C.set_controller_reference owner k b.meta ≡ r
      → (elim r [ ok m ↦ ok (record b { meta = m }) | err e ↦ err e ]) ≡ ok b'
      → IsBuilt owner b b'
  owned-IsBuilt (ok m) b' e h =
      let set = L.controller_set owner k b.meta m e in
      subst (IsBuilt owner b) (ok_injective h)
        (record { spec = refl; labels = set.0; controlled = set.1 })
  owned-IsBuilt (err x) b' e h = cc

  module _ (change : Body k.kind → Body k.kind) {f : Object k.kind → Call C.State (Unit {0})}
      (changes : Changes C k change f) where
    settle-Settled :
        (b' : Body k.kind) (s : C.State) (found : Result (Object k.kind))
        → IsBuilt owner b b'
        → C.get s k ≡ found
        → (settle C k b' f found s).0 ≡ ok tt
        → Settled owner b change found (C.get (settle C k b' f found s).1 k)
    unfolding settle fail
    settle-Settled b' s (ok o) built there e =
        let (p, stored, changed) = changes.at s o there e in
        record { object = p; stored = stored; how = inr (o, refl, changed) }
    settle-Settled b' s (err not_found) built there e =
        let (p, stored, same) = L.get-create k b' s e in
        record {
          object = p;
          stored = stored;
          how = inl (refl, subst (IsBuilt owner b) (sym same) built);
        }
    settle-Settled b' s (err (failed m)) built there e = cc

    pub create_or-Settled : Moves C k (Settled owner b change) (create_or C owner k b f)
    unfolding create_or ◌>>=◌ set_owner
    create_or-Settled = record {
      at = λ s e. go s (C.set_controller_reference owner k b.meta) refl e;
    }
      where
        go :
            (s : C.State) (r : Result ObjectMeta)
            → C.set_controller_reference owner k b.meta ≡ r
            → ((lift (elim r [ ok m ↦ ok (record b { meta = m }) | err e ↦ err e ]) >>= λ owned.
                  attempt (λ s. C.get s k) >>= λ found. settle C k owned f found)
                s).0
              ≡ ok tt
            → Settled owner b change (C.get s k) (
                C.get
                  ((lift (elim r [ ok m ↦ ok (record b { meta = m }) | err e ↦ err e ]) >>= λ owned.
                      attempt (λ s. C.get s k) >>= λ found. settle C k owned f found)
                    s).1
                  k)
        go s (ok m) x e = settle-Settled _ s (C.get s k) (owned-IsBuilt (ok m) _ x refl) refl e
        go s (err y) x e = cc

  return-Changes : Changes C k (λ body. body) (λ o. return tt)
  unfolding return
  return-Changes = record { at = λ s o there e. (o, there, refl) }

  pub create_if_missing-Settled :
      Moves C k (Settled owner b (λ body. body)) (create_if_missing C owner k b)
  unfolding create_if_missing
  create_if_missing-Settled = create_or-Settled (λ body. body) return-Changes

same_replicas : (o : Option ℤ) (n : ℤ) → replicas_differ o n ≡ false → o ≡ some n
same_replicas none n e = cc
same_replicas (some m) n e = ground (arith, int_eq_iff m n)

module _ {C : Client} (L : IsLawful C) (namespace name : String) (n : ℤ) where
  abbrev key : Key
  key = record { kind = Kind.deployment; namespace = namespace; name = name }

  pub scale-Changes :
      Changes C
        (record { kind = Kind.deployment; namespace = namespace; name = name })
        (λ b. scaled b n)
        (scale C namespace name n)
  unfolding scale branch return
  scale-Changes = record {
    at = λ s o there e. go s o there (replicas_differ o.body.spec.replicas n) refl e;
  }
    where
      go :
          (s : C.State) (o : Object Kind.deployment)
          → C.get s key ≡ ok o
          → (b : Bool) → replicas_differ o.body.spec.replicas n ≡ b
          → (branch b (C.update key (scaled o.body n)) (return tt) s).0 ≡ ok tt
          → (p : Object Kind.deployment) × (C.get
                (branch b (C.update key (scaled o.body n)) (return tt) s).1
                key
              ≡ ok p)
            × (p.body ≡ scaled o.body n)
      go s o there true differ e = L.get-update key (scaled o.body n) s e
      go s o there false differ e = (
        o,
        there,
        ap (λ x. record (o.body) { spec = record (o.body.spec) { replicas = x } })
            (same_replicas o.body.spec.replicas n differ),
      )
