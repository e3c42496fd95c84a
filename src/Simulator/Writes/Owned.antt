-- ===== src/Simulator/Writes/Owned.antt =====
-- What a write of the SimulatorDeployment controller brings into the cluster belongs to its resource.
use mathlib.Core.Path.{subst}
use llm_d_scheduler_sim_oper.Base.{ℤ, String, Bool, true, false, ◌≡◌, ◌⊎◌, inl, inr, refl, sym, ◌∙◌}
use llm_d_scheduler_sim_oper.Kube.Objects.{Kind, Key, Key-discrete, Body, Object, IsControlledBy}
use llm_d_scheduler_sim_oper.Kube.Calls.{
  Result, ok, err, not_found, failed, Call, return, attempt, fail, lift, branch, ◌>>=◌,
}
use llm_d_scheduler_sim_oper.Kube.Triples.{Keeps}
use llm_d_scheduler_sim_oper.Kube.Client.{Client, IsLawful, Holds, set_owner}
use llm_d_scheduler_sim_oper.Kube.Client.Writes.{Reads, ok_injective}
use llm_d_scheduler_sim_oper.Simulator.Writes.{
  create_or, create_if_missing, settle, scale, scaled, replicas_differ,
}
use llm_d_scheduler_sim_oper.Simulator.Writes.Settled.{owned-IsBuilt}

abbrev deployment_key : String → String → Key
deployment_key namespace name = record {
  kind = Kind.deployment;
  namespace = namespace;
  name = name;
}

-- An object is missing, or is there with the owner as its controller.
pub data Belongs (C : Client) (owner j : Key) (s : C.State) : Type 0 where
  missing : C.get s j ≡ err not_found → Belongs C owner j s
  owned : Holds C j (λ b. IsControlledBy owner b.meta.owner_references) s → Belongs C owner j s

module _ {C : Client} {owner j : Key} where
  pub Belongs-same :
      (s t : C.State) → C.get t j ≡ C.get s j → Belongs C owner j s → Belongs C owner j t
  Belongs-same s t same (missing gone) = missing (same ∙ gone)
  Belongs-same s t same (owned h) =
      owned (record { object = h.object; stored = same ∙ h.stored; meets = h.meets })

  -- What keeps an object as it reads keeps whose it is.
  pub Keeps-Belongs :
      {m : Call C.State (Unit {0})}
      → ((r : Result (Object j.kind)) → Keeps (Reads C j r) m)
      → Keeps (Belongs C owner j) m
  Keeps-Belongs k = record {
    at = λ s. Belongs-same s _ ((k (C.get s j)).at s (record { reads = refl })).reads;
  }

  Belongs-stored :
      (b : Body j.kind) (s t : C.State)
      → IsControlledBy owner b.meta.owner_references
      → (C.get t j ≡ C.get s j) ⊎ Holds C j (λ b'. b' ≡ b) t
      → Belongs C owner j s
      → Belongs C owner j t
  Belongs-stored b s t mine (inl same) h = Belongs-same s t same h
  Belongs-stored b s t mine (inr new) h = owned (record {
    object = new.object;
    stored = new.stored;
    meets =
        subst (λ (x : Body j.kind). IsControlledBy owner x.meta.owner_references) (sym new.meets)
          mine;
  })

-- The branch for an object that is there keeps whose the object at `j` is.
pub record FoundKeeps (C : Client) (owner k j : Key) (f : Object k.kind → Call C.State (Unit {0}))
    : Type 0 where
  pub at :
      (s : C.State) (p : Object k.kind)
      → C.get s k ≡ ok p
      → Belongs C owner j s
      → Belongs C owner j (f p s).1

module _ {C : Client} (L : IsLawful C) {owner : Key} where
  create-Belongs :
      (k j : Key) (b : Body k.kind) (s : C.State)
      → IsControlledBy owner b.meta.owner_references
      → Belongs C owner j s
      → Belongs C owner j (C.create k b s).1
  create-Belongs k j b s mine = elim (Key-discrete k j) [
    | yes same ↦
        subst (λ x. Belongs C owner x s → Belongs C owner x (C.create k b s).1) same
          (Belongs-stored b s _ mine (L.create_or_nothing k b s))
    | no other ↦ Belongs-same s _ (L.get-create_ne k j b s other)
  ]

  settle-Belongs :
      (k j : Key) (b : Body k.kind) (f : Object k.kind → Call C.State (Unit {0})) (s : C.State)
      (found : Result (Object k.kind))
      → IsControlledBy owner b.meta.owner_references
      → C.get s k ≡ found
      → FoundKeeps C owner k j f
      → Belongs C owner j s
      → Belongs C owner j (settle C k b f found s).1
  unfolding settle fail
  settle-Belongs k j b f s (ok p) mine there kept h = kept.at s p there h
  settle-Belongs k j b f s (err not_found) mine there kept h = create-Belongs k j b s mine h
  settle-Belongs k j b f s (err (failed m)) mine there kept h = h

  create-Keeps_Belongs :
      (k j : Key) (b : Body k.kind) (f : Object k.kind → Call C.State (Unit {0}))
      → FoundKeeps C owner k j f
      → (r : Result (Body k.kind)) → set_owner C owner k b ≡ r
      → Keeps (Belongs C owner j) (
          lift r >>= λ owned_body.
          attempt (λ (s : C.State). C.get s k) >>= λ found. settle C k owned_body f found)
  unfolding lift attempt ◌>>=◌ set_owner
  create-Keeps_Belongs k j b f kept (ok b') e = record {
    at = λ s h.
        settle-Belongs k j b' f s (C.get s k) (owned-IsBuilt L owner k b _ b' refl e).controlled
          refl kept h;
  }
  create-Keeps_Belongs k j b f kept (err x) e = record { at = λ s h. h }

  pub create_or-Belongs :
      (k j : Key) (b : Body k.kind) (f : Object k.kind → Call C.State (Unit {0}))
      → FoundKeeps C owner k j f
      → Keeps (Belongs C owner j) (create_or C owner k b f)
  unfolding create_or
  create_or-Belongs k j b f kept = create-Keeps_Belongs k j b f kept _ refl

  pub create_if_missing-Belongs :
      (k j : Key) (b : Body k.kind) → Keeps (Belongs C owner j) (create_if_missing C owner k b)
  unfolding create_if_missing return
  create_if_missing-Belongs k j b = create_or-Belongs k j b _ (record { at = λ s p there h. h })

  update-Belongs :
      (k j : Key) (b : Body k.kind) (s : C.State)
      → (k ≡ j → IsControlledBy owner b.meta.owner_references)
      → Belongs C owner j s
      → Belongs C owner j (C.update k b s).1
  update-Belongs k j b s mine = elim (Key-discrete k j) [
    | yes same ↦
        subst (λ x. Belongs C owner x s → Belongs C owner x (C.update k b s).1) same
          (Belongs-stored b s _ (mine same) (L.update_or_nothing k b s))
    | no other ↦ Belongs-same s _ (L.get-update_ne k j b s other)
  ]

  -- What is there and belongs to the owner has it as its controller.
  found_controlled :
      (k j : Key) (p : Object k.kind) (s : C.State)
      → C.get s k ≡ ok p
      → Belongs C owner j s
      → k ≡ j
      → IsControlledBy owner p.body.meta.owner_references
  found_controlled k j p s there h same = go (subst (λ x. Belongs C owner x s) (sym same) h)
    where
      go : Belongs C owner k s → IsControlledBy owner p.body.meta.owner_references
      go (missing gone) = cc
      go (owned o) =
          subst (λ (x : Object k.kind). IsControlledBy owner x.body.meta.owner_references)
            (ok_injective (sym o.stored ∙ there)) o.meets

  pub scale-FoundKeeps :
      (namespace name : String) (n : ℤ) (j : Key)
      → FoundKeeps C owner (deployment_key namespace name) j (scale C namespace name n)
  unfolding scale branch return
  scale-FoundKeeps namespace name n j = record {
    at = λ s p there h. go s p there h (replicas_differ p.body.spec.replicas n);
  }
    where
      go :
          (s : C.State) (p : Object Kind.deployment)
          → C.get s (deployment_key namespace name) ≡ ok p
          → Belongs C owner j s
          → (b : Bool)
          → Belongs C owner j
              (branch b
                (C.update (deployment_key namespace name) (scaled p.body n))
                (return tt)
                s).1
      go s p there h true =
          update-Belongs (deployment_key namespace name) j (scaled p.body n) s
            (found_controlled (deployment_key namespace name) j p s there h) h
      go s p there h false = h
