-- ===== src/Simulator/Reconcile/Owned.antt =====
-- Whose the objects are that a reconcile of a `SimulatorDeployment` creates.
use mathlib.Core.Path.{subst}
use llm_d_scheduler_sim_oper.Base.{ℕ, String, ◌≢◌}
use llm_d_scheduler_sim_oper.Api.{SimulatorDeployment}
use llm_d_scheduler_sim_oper.Kube.Objects.{Kind, Key, Object}
use llm_d_scheduler_sim_oper.Kube.Calls.{Result}
use llm_d_scheduler_sim_oper.Kube.Triples.{Keeps}
use llm_d_scheduler_sim_oper.Kube.Client.{Client, IsLawful}
use llm_d_scheduler_sim_oper.Kube.Client.Writes.{Reads}
use llm_d_scheduler_sim_oper.Simulator.Content.{simulator_key}
use llm_d_scheduler_sim_oper.Simulator.Writes.Settled.{
  create_or-Keeps, create_if_missing-Keeps, scale-Keeps,
}
use llm_d_scheduler_sim_oper.Simulator.Writes.Owned.{
  Belongs, Keeps-Belongs, create_or-Belongs, create_if_missing-Belongs, scale-FoundKeeps,
}
use llm_d_scheduler_sim_oper.Simulator.Reconcile.{reconcile_request}
use llm_d_scheduler_sim_oper.Simulator.Reconcile.Frame.{report_status-Keeps}
use llm_d_scheduler_sim_oper.Simulator.Reconcile.Rules.{
  IsCreated, WritesKeep, reconcile_request-Keeps_by,
}

module _ {C : Client} (L : IsLawful C) (now : ℕ) (d : SimulatorDeployment) (j : Key)
    (other : simulator_key d ≢ j) where
  writes_keep_owner : WritesKeep C now d (Belongs C (simulator_key d) j)
  writes_keep_owner = record {
    missing = λ k b _. create_if_missing-Belongs L k j b;
    prefill = λ b n. create_or-Belongs L _ j b _ (scale-FoundKeeps L _ _ n j);
    decode = λ b n. create_or-Belongs L _ j b _ (scale-FoundKeeps L _ _ n j);
    single = λ b n. create_or-Belongs L _ j b _ (scale-FoundKeeps L _ _ n j);
    status = Keeps-Belongs (λ r. report_status-Keeps L now d other);
  }

  -- An object of another kind than these is not the one that is written.
  kinds_differ : (k : Key) → IsCreated k.kind → (IsCreated j.kind → ⊥) → k ≢ j
  kinds_differ k made foreign same = foreign (subst (λ x. IsCreated x.kind) same made)

  writes_keep_foreign :
      {r : Result (Object j.kind)} → (IsCreated j.kind → ⊥) → WritesKeep C now d (Reads C j r)
  writes_keep_foreign foreign = record {
    missing = λ k b made. create_if_missing-Keeps L _ k b (kinds_differ k made foreign);
    prefill = λ b n.
        let ne = kinds_differ _ tt foreign in
        create_or-Keeps L _ _ b _ ne (λ p. scale-Keeps L _ _ n p ne);
    decode = λ b n.
        let ne = kinds_differ _ tt foreign in
        create_or-Keeps L _ _ b _ ne (λ p. scale-Keeps L _ _ n p ne);
    single = λ b n.
        let ne = kinds_differ _ tt foreign in
        create_or-Keeps L _ _ b _ ne (λ p. scale-Keeps L _ _ n p ne);
    status = report_status-Keeps L now d other;
  }

-- A reconcile of a SimulatorDeployment, whichever calls fail: an object that was missing, or had the
-- resource as its controller, is missing or has it afterwards. The resource itself is left out.
pub reconcile_request-Belongs :
    {C : Client} (L : IsLawful C) (now : ℕ) (namespace name : String) (j : Key)
    → record { kind = Kind.simulator_deployment; namespace = namespace; name = name } ≢ j
    → Keeps
        (Belongs C
          (record { kind = Kind.simulator_deployment; namespace = namespace; name = name })
          j)
        (reconcile_request C now namespace name)
reconcile_request-Belongs L now namespace name j other =
    reconcile_request-Keeps_by λ spec. writes_keep_owner L now _ j other

-- It writes no object but Deployments, Services and ConfigMaps, and the resource.
pub reconcile_request_foreign :
    {C : Client} (L : IsLawful C) (now : ℕ) (namespace name : String) (j : Key)
    {r : Result (Object j.kind)}
    → record { kind = Kind.simulator_deployment; namespace = namespace; name = name } ≢ j
    → (IsCreated j.kind → ⊥)
    → Keeps (Reads C j r) (reconcile_request C now namespace name)
reconcile_request_foreign L now namespace name j other foreign =
    reconcile_request-Keeps_by λ spec. writes_keep_foreign L now _ j other foreign
