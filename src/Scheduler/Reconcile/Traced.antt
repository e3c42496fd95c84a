-- ===== src/Scheduler/Reconcile/Traced.antt =====
-- Whose an object is that the SchedulerInstall controller writes: what each kind of write keeps.
use mathlib.Core.Path.{subst}
use llm_d_scheduler_sim_oper.Base.{[], ◌≡◌, ◌⊎◌, inl, inr, refl, sym, ◌∙◌, List}
use llm_d_scheduler_sim_oper.Kube.Objects.{
  Kind, Key, Key-discrete, OwnerReference, ObjectMeta, Body, Object, IsControlledBy,
}
use llm_d_scheduler_sim_oper.Kube.Calls.{Result, ok, err, not_found, Call, lift, ◌>>=◌}
use llm_d_scheduler_sim_oper.Kube.Triples.{Keeps}
use llm_d_scheduler_sim_oper.Kube.Client.{Client, IsLawful, Holds, Applied, set_owner}
use llm_d_scheduler_sim_oper.Kube.Client.Writes.{Reads, ok_injective}

-- The owners of an object, by its kind: the resource controls it, or nothing owns it. A Service may
-- be the one or the other.
abbrev pub Mark : Key → Kind → List OwnerReference → Type 0
Mark owner Kind.role refs = refs ≡ []
Mark owner Kind.role_binding refs = refs ≡ []
Mark owner Kind.reference_grant refs = refs ≡ []
Mark owner Kind.destination_rule refs = refs ≡ []
Mark owner Kind.service refs = IsControlledBy owner refs ⊎ (refs ≡ [])
Mark owner _ refs = IsControlledBy owner refs

-- An object is missing, or is there with the owners of its kind.
pub data Traced (C : Client) (owner j : Key) (s : C.State) : Type 0 where
  missing : C.get s j ≡ err not_found → Traced C owner j s
  marked : Holds C j (λ b. Mark owner j.kind b.meta.owner_references) s → Traced C owner j s

module _ {C : Client} {owner j : Key} where
  Traced-same : (s t : C.State) → C.get t j ≡ C.get s j → Traced C owner j s → Traced C owner j t
  Traced-same s t same (missing gone) = missing (same ∙ gone)
  Traced-same s t same (marked h) =
      marked (record { object = h.object; stored = same ∙ h.stored; meets = h.meets })

  pub Keeps-Traced :
      {m : Call C.State (Unit {0})}
      → ((r : Result (Object j.kind)) → Keeps (Reads C j r) m)
      → Keeps (Traced C owner j) m
  Keeps-Traced k = record {
    at = λ s. Traced-same s _ ((k (C.get s j)).at s (record { reads = refl })).reads;
  }

  found_marked :
      (p : Object j.kind) (s : C.State)
      → C.get s j ≡ ok p
      → Traced C owner j s
      → Mark owner j.kind p.body.meta.owner_references
  found_marked p s there (missing gone) = cc
  found_marked p s there (marked h) =
      subst (λ (x : Object j.kind). Mark owner j.kind x.body.meta.owner_references)
        (ok_injective (sym h.stored ∙ there)) h.meets

  Applied-Traced :
      (b : Body j.kind) (f : Body j.kind → Result (Body j.kind)) (s t : C.State)
      → ((base made : Body j.kind)
          → f base ≡ ok made
          → (base ≡ b) ⊎ Mark owner j.kind base.meta.owner_references
          → Mark owner j.kind made.meta.owner_references)
      → (C.get t j ≡ C.get s j) ⊎ Applied C j b f s t
      → Traced C owner j s
      → Traced C owner j t
  Applied-Traced b f s t makes (inl same) h = Traced-same s t same h
  Applied-Traced b f s t makes (inr a) h = marked (record {
    object = a.result;
    stored = a.stored;
    meets = makes a.base a.result.body a.mutated (origin a.base a.from);
  })
    where
      origin :
          (base : Body j.kind)
          → ((C.get s j ≡ err not_found) × (base ≡ b))
            ⊎ ((p : Object j.kind) × (C.get s j ≡ ok p) × (base ≡ p.body))
          → (base ≡ b) ⊎ Mark owner j.kind base.meta.owner_references
      origin base (inl (_, e)) = inl e
      origin base (inr (p, there, e)) = inr (
          subst (λ (x : Body j.kind). Mark owner j.kind x.meta.owner_references) (sym e)
            (found_marked p s there h))

module _ {C : Client} (L : IsLawful C) {owner : Key} (j : Key) where
  pub Traced-create_or_update :
      (k : Key) (b : Body k.kind) (f : Body k.kind → Result (Body k.kind))
      → ((base made : Body k.kind)
          → f base ≡ ok made
          → (base ≡ b) ⊎ Mark owner k.kind base.meta.owner_references
          → Mark owner k.kind made.meta.owner_references)
      → Keeps (Traced C owner j) (C.create_or_update k b f)
  Traced-create_or_update k b f makes = record {
    at = λ s. elim (Key-discrete k j) [
      | yes same ↦
          subst (λ x. Traced C owner x s → Traced C owner x (C.create_or_update k b f s).1) same
            (Applied-Traced b f s _ makes (L.create_or_update_or_nothing k b f s))
      | no other ↦ Traced-same s _ (L.get-create_or_update_ne k j b f s other)
    ];
  }

  -- A write whose callback always succeeds and leaves the owners alone.
  pub Traced-mutate :
      (k : Key) (b : Body k.kind) (f : Body k.kind → Body k.kind)
      → Mark owner k.kind b.meta.owner_references
      → ((x : Body k.kind) → (f x).meta.owner_references ≡ x.meta.owner_references)
      → Keeps (Traced C owner j) (C.create_or_update k b (λ x. ok (f x)))
  Traced-mutate k b f mine same =
      Traced-create_or_update k b (λ x. ok (f x))
        λ base made e from.
          subst (λ (x : Body k.kind). Mark owner k.kind x.meta.owner_references) (ok_injective e)
            (subst (Mark owner k.kind) (sym (same base)) (base_marked base from))
    where
      base_marked :
          (base : Body k.kind)
          → (base ≡ b) ⊎ Mark owner k.kind base.meta.owner_references
          → Mark owner k.kind base.meta.owner_references
      base_marked base (inl e) =
          subst (λ (x : Body k.kind). Mark owner k.kind x.meta.owner_references) (sym e) mine
      base_marked base (inr m) = m

  pub Traced-delete : (k : Key) → Keeps (Traced C owner j) (C.delete k)
  Traced-delete k = record {
    at = λ s. elim (Key-discrete k j) [
      | yes same ↦
          subst (λ x. Traced C owner x s → Traced C owner x (C.delete k s).1) same
            (deleted s (L.delete_or_nothing k s))
      | no other ↦ Traced-same s _ (L.get-delete_ne k j s other)
    ];
  }
    where
      deleted :
          (s : C.State)
          → (C.get (C.delete k s).1 k ≡ C.get s k) ⊎ (C.get (C.delete k s).1 k ≡ err not_found)
          → Traced C owner k s
          → Traced C owner k (C.delete k s).1
      deleted s (inl same) h = Traced-same s _ same h
      deleted s (inr gone) h = missing gone

  -- A write of an object that has the owner set first.
  pub Traced-owned :
      (k : Key) (b : Body k.kind) (f : Body k.kind → Call C.State (Unit {0}))
      → ((b' : Body k.kind)
          → IsControlledBy owner b'.meta.owner_references
          → Keeps (Traced C owner j) (f b'))
      → Keeps (Traced C owner j) (lift (set_owner C owner k b) >>= f)
  unfolding set_owner lift ◌>>=◌
  Traced-owned k b f keeps = go (C.set_controller_reference owner k b.meta) refl
    where
      go :
          (r : Result ObjectMeta)
          → C.set_controller_reference owner k b.meta ≡ r
          → Keeps
              (Traced C owner j)
              (lift (elim r [ ok m ↦ ok (record b { meta = m }) | err e ↦ err e ]) >>= f)
      go (ok m) e = keeps (record b { meta = m }) (L.controller_set owner k b.meta m e).1
      go (err x) e = record { at = λ s h. h }
