-- ===== src/Main/Watches.antt =====
-- Which of the objects that the SimulatorDeployment controller creates it asks to be told about.
use mathlib.Core.List.{Mem, mem-cons_self, mem-cons_of_mem}
use llm_d_scheduler_sim_oper.Base.{ℕ, String, ◌≡◌, ◌≢◌, ◌⊎◌, inl, inr, refl}
use llm_d_scheduler_sim_oper.Kube.Objects.{Kind, Key, IsControlledBy}
use llm_d_scheduler_sim_oper.Kube.Calls.{err, not_found}
use llm_d_scheduler_sim_oper.Kube.Client.{Client, IsLawful, Holds}
use llm_d_scheduler_sim_oper.Simulator.Reconcile.{reconcile_request}
use llm_d_scheduler_sim_oper.Simulator.Writes.Owned.{Belongs, missing, owned}
use llm_d_scheduler_sim_oper.Simulator.Reconcile.Rules.{IsCreated}
use llm_d_scheduler_sim_oper.Simulator.Reconcile.Owned.{
  reconcile_request-Belongs, reconcile_request_foreign,
}
use llm_d_scheduler_sim_oper.Main.{Builder, simulator_builder}

-- The object at `j` has the resource as its controller, and both kinds are those of the watch.
pub record IsWatched (C : Client) (w : Builder) (resource j : Key) (s : C.State) : Type 0 where
  pub reconciled : resource.kind ≡ w.reconciled
  pub owns : Mem j.kind w.owns
  pub controlled : Holds C j (λ b. IsControlledBy resource b.meta.owner_references) s

-- What may have become of an object that was missing.
pub data Appears (C : Client) (w : Builder) (resource j : Key) (s : C.State) : Type 0 where
  absent : C.get s j ≡ err not_found → Appears C w resource j s
  watched : IsWatched C w resource j s → Appears C w resource j s
  -- Collected with the resource, but not watched.
  config :
      j.kind ≡ Kind.config_map
      → Holds C j (λ b. IsControlledBy resource b.meta.owner_references) s
      → Appears C w resource j s

module _ {C : Client} (L : IsLawful C) (now : ℕ) (namespace name : String) where
  abbrev requested : Key
  requested = record { kind = Kind.simulator_deployment; namespace = namespace; name = name }

  Belongs-Appears :
      (j : Key) (s : C.State)
      → (IsCreated j.kind → ⊥) ⊎ (Mem j.kind simulator_builder.owns ⊎ (j.kind ≡ Kind.config_map))
      → ((IsCreated j.kind → ⊥) → C.get s j ≡ err not_found)
      → Belongs C requested j s
      → Appears C simulator_builder requested j s
  Belongs-Appears j s kind foreign (missing gone) = absent gone
  Belongs-Appears j s (inl alien) foreign (owned h) = absent (foreign alien)
  Belongs-Appears j s (inr (inl own)) foreign (owned h) =
      watched (record { reconciled = refl; owns = own; controlled = h })
  Belongs-Appears j s (inr (inr e)) foreign (owned h) = config e h

  kind_watched :
      (k : Kind) → (IsCreated k → ⊥) ⊎ (Mem k simulator_builder.owns ⊎ (k ≡ Kind.config_map))
  kind_watched Kind.deployment = inr (inl mem-cons_self)
  kind_watched Kind.service = inr (inl (mem-cons_of_mem _ mem-cons_self))
  kind_watched Kind.config_map = inr (inr refl)
  kind_watched _ = inl (λ x. x)

-- An object that was missing before a reconcile of a SimulatorDeployment, whichever calls fail, is
-- missing afterwards, or is a Deployment or a Service that the controller watches, or is a ConfigMap;
-- what is there has the resource as its controller. The resource itself is left out.
pub reconcile_request-Appears :
    {C : Client} (L : IsLawful C) (now : ℕ) (namespace name : String) (s : C.State) (j : Key)
    → record { kind = Kind.simulator_deployment; namespace = namespace; name = name } ≢ j
    → C.get s j ≡ err not_found
    → Appears C simulator_builder
        (record { kind = Kind.simulator_deployment; namespace = namespace; name = name })
        j
        (reconcile_request C now namespace name s).1
reconcile_request-Appears L now namespace name s j other gone =
    Belongs-Appears L now namespace name j _ (kind_watched L now namespace name j.kind)
      (λ foreign.
        ((reconcile_request_foreign L now namespace name j other foreign).at s
          (record { reads = gone })).reads)
      ((reconcile_request-Belongs L now namespace name j other).at s (missing gone))
