-- ===== src/Simulator/Reconcile/Additive.antt =====
-- A reconcile of a `SimulatorDeployment` overwrites nothing but the Deployments that it scales.
use llm_d_scheduler_sim_oper.Base.{ℕ, String, ◌≡◌, ◌≢◌}
use llm_d_scheduler_sim_oper.Api.{SimulatorDeploymentSpec, SimulatorDeployment}
use llm_d_scheduler_sim_oper.Kube.Objects.{Kind, Key, Object}
use llm_d_scheduler_sim_oper.Kube.Calls.{ok}
use llm_d_scheduler_sim_oper.Kube.Client.{Client, IsLawful}
use llm_d_scheduler_sim_oper.Kube.Client.Writes.{Reads}
use llm_d_scheduler_sim_oper.Simulator.Content.{simulator_key, legacy_key, stage_key}
use llm_d_scheduler_sim_oper.Simulator.Writes.Additive.{
  create_or-Keeps_present, create_if_missing-Keeps_present,
}
use llm_d_scheduler_sim_oper.Simulator.Writes.Settled.{scale-Keeps}
use llm_d_scheduler_sim_oper.Simulator.Reconcile.{simulator_with_defaults, reconcile_request}
use llm_d_scheduler_sim_oper.Simulator.Reconcile.Frame.{report_status-Keeps}
use llm_d_scheduler_sim_oper.Simulator.Reconcile.Rules.{WritesKeep, reconcile_request-Keeps_by}

-- `j` is none of the Deployments that the resource may scale, nor the resource itself. The names of
-- these follow from the namespace and the name of the resource.
pub record NotScaled (d : SimulatorDeployment) (j : Key) : Type 0 where
  pub prefill : stage_key d Kind.deployment "prefill" ≢ j
  pub decode : stage_key d Kind.deployment "decode" ≢ j
  pub single : legacy_key d ≢ j
  pub resource : simulator_key d ≢ j

module _ {C : Client} (L : IsLawful C) (now : ℕ) (d : SimulatorDeployment) {j : Key}
    {o : Object j.kind} where
  writes_keep_present : NotScaled d j → WritesKeep C now d (Reads C j (ok o))
  writes_keep_present n = record {
    missing = λ k b _. create_if_missing-Keeps_present L _ k b;
    prefill = λ b m. create_or-Keeps_present L _ _ b _ (λ p. scale-Keeps L _ _ m p n.prefill);
    decode = λ b m. create_or-Keeps_present L _ _ b _ (λ p. scale-Keeps L _ _ m p n.decode);
    single = λ b m. create_or-Keeps_present L _ _ b _ (λ p. scale-Keeps L _ _ m p n.single);
    status = report_status-Keeps L now d n.resource;
  }

-- A reconcile of a SimulatorDeployment, whatever its spec, and whichever calls fail, leaves every
-- object as it was that is there already, also those of its own parts: but for the Deployments of
-- its two stages and the single one, and the resource itself.
pub reconcile_request_keeps_present :
    {C : Client} (L : IsLawful C) (now : ℕ) (namespace name : String) (s : C.State) (j : Key)
    (o : Object j.kind)
    → C.get s j ≡ ok o
    → ((spec : SimulatorDeploymentSpec) → NotScaled (simulator_with_defaults namespace name spec) j)
    → C.get (reconcile_request C now namespace name s).1 j ≡ ok o
reconcile_request_keeps_present {C} L now namespace name s j o there n =
    ((reconcile_request-Keeps_by {P = Reads C j (ok o)}
        λ spec. writes_keep_present L now _ (n spec)).at
      s (record { reads = there })).reads
