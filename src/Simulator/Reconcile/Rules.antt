-- ===== src/Simulator/Reconcile/Rules.antt =====
-- What the writes of a `SimulatorDeployment` keep, a whole reconcile keeps: one rule for each way in
-- which the steps write.
use llm_d_scheduler_sim_oper.Base.{ℕ, ℤ, String, Bool, true, false}
use llm_d_scheduler_sim_oper.Api.{
  EppConfig, StageConfig, GatewayInstanceConfig, InferenceGatewayConfig, SimulatorDeploymentSpec,
  SimulatorDeployment,
}
use llm_d_scheduler_sim_oper.Kube.Objects.{Kind, Key, Body, Object}
use llm_d_scheduler_sim_oper.Kube.Calls.{Result, ok, err, not_found, failed}
use llm_d_scheduler_sim_oper.Kube.Triples.{
  Keeps, Keeps-seq, Keeps-on_enabled, Keeps-when, Keeps-return, Keeps-fail, Keeps-bind,
  Keeps-attempt,
}
use llm_d_scheduler_sim_oper.Kube.Client.{Client}
use llm_d_scheduler_sim_oper.Simulator.Content.{
  simulator_key, legacy_key, legacy_name, stage_key, stage_name,
}
use llm_d_scheduler_sim_oper.Simulator.Writes.{create_or, create_if_missing, scale}
use llm_d_scheduler_sim_oper.Simulator.Steps.{
  reconcile_deployment, reconcile_service, write_stage, reconcile_stage, reconcile_epp_config,
  write_epp, reconcile_epp, write_gateway, reconcile_gateway_instance, reconcile_inference_gateways,
}
use llm_d_scheduler_sim_oper.Simulator.Reconcile.{
  report_status, legacy_step, provision, reconcile_simulator, simulator_with_defaults,
  fetched_simulator, reconcile_request,
}

-- The kinds that the controller creates.
abbrev pub IsCreated : Kind → Type 0
IsCreated Kind.deployment = Unit {0}
IsCreated Kind.service = Unit {0}
IsCreated Kind.config_map = Unit {0}
IsCreated _ = ⊥

-- A write of each kind keeps `P`.
pub record WritesKeep (C : Client) (now : ℕ) (d : SimulatorDeployment) (P : C.State → Type 0)
    : Type 0 where
  pub missing :
      (k : Key) (b : Body k.kind)
      → IsCreated k.kind
      → Keeps P (create_if_missing C (simulator_key d) k b)
  pub prefill :
      (b : Body Kind.deployment) (n : ℤ)
      → Keeps P (
          create_or C
            (simulator_key d)
            (stage_key d Kind.deployment "prefill")
            b
            (scale C d.namespace (stage_name "prefill") n))
  pub decode :
      (b : Body Kind.deployment) (n : ℤ)
      → Keeps P (
          create_or C
            (simulator_key d)
            (stage_key d Kind.deployment "decode")
            b
            (scale C d.namespace (stage_name "decode") n))
  pub single :
      (b : Body Kind.deployment) (n : ℤ)
      → Keeps P
          (create_or C (simulator_key d) (legacy_key d) b (scale C d.namespace (legacy_name d) n))
  pub status : Keeps P (report_status C now d)

module _ {C : Client} {now : ℕ} {d : SimulatorDeployment} {P : C.State → Type 0}
    (W : WritesKeep C now d P) where
  prefill-Keeps_by : (c : StageConfig) → Keeps P (reconcile_stage C d "prefill" c)
  unfolding reconcile_stage write_stage
  prefill-Keeps_by c = Keeps-seq (W.prefill _ _) (W.missing _ _ tt)

  decode-Keeps_by : (c : StageConfig) → Keeps P (reconcile_stage C d "decode" c)
  unfolding reconcile_stage write_stage
  decode-Keeps_by c = Keeps-seq (W.decode _ _) (W.missing _ _ tt)

  legacy-Keeps_by : Keeps P (legacy_step C now d)
  unfolding legacy_step reconcile_deployment reconcile_service
  legacy-Keeps_by = Keeps-seq (W.single _ _) (W.missing _ _ tt)

  epp-Keeps_by : (e : EppConfig) → Keeps P (reconcile_epp C d e)
  unfolding reconcile_epp reconcile_epp_config write_epp
  epp-Keeps_by e = Keeps-seq (W.missing _ _ tt) (Keeps-seq (W.missing _ _ tt) (W.missing _ _ tt))

  instance-Keeps_by :
      (name : String) (is_istio : Bool) (x : GatewayInstanceConfig)
      → Keeps P (reconcile_gateway_instance C d name is_istio x)
  unfolding reconcile_gateway_instance write_gateway
  instance-Keeps_by name is_istio x =
      Keeps-seq (W.missing _ _ tt) (Keeps-seq (W.missing _ _ tt) (W.missing _ _ tt))

  gateways-Keeps_by : (g : InferenceGatewayConfig) → Keeps P (reconcile_inference_gateways C d g)
  unfolding reconcile_inference_gateways
  gateways-Keeps_by g =
      Keeps-seq (Keeps-on_enabled g.standard _ _ λ x e t. instance-Keeps_by _ false x)
        (Keeps-on_enabled g.istio _ _ λ x e t. instance-Keeps_by _ true x)

  provision-Keeps_by : Keeps P (provision C now d)
  unfolding provision
  provision-Keeps_by = Keeps-seq (Keeps-on_enabled d.spec.epp _ _ λ e x t. epp-Keeps_by e) (
      Keeps-seq (Keeps-on_enabled d.spec.inference_gateway _ _ λ g x t. gateways-Keeps_by g) (
        Keeps-seq (Keeps-on_enabled d.spec.prefill _ _ λ c x t. prefill-Keeps_by c) (
          Keeps-seq (Keeps-on_enabled d.spec.decode _ _ λ c x t. decode-Keeps_by c) (
            Keeps-seq (Keeps-when _ _ legacy-Keeps_by)
              (Keeps-on_enabled d.spec.load_balancing _ _ λ b x t. Keeps-return tt)))))

  reconcile_simulator-Keeps_by : Keeps P (reconcile_simulator C now d)
  unfolding reconcile_simulator
  reconcile_simulator-Keeps_by = Keeps-seq provision-Keeps_by W.status

module _ {C : Client} {now : ℕ} {namespace name : String} {P : C.State → Type 0}
    (W : (spec : SimulatorDeploymentSpec)
      → WritesKeep C now (simulator_with_defaults namespace name spec) P) where
  fetched-Keeps_by :
      (found : Result (Object Kind.simulator_deployment))
      → Keeps P (fetched_simulator C now namespace name found)
  unfolding fetched_simulator
  fetched-Keeps_by (ok o) = reconcile_simulator-Keeps_by (W o.body.spec)
  fetched-Keeps_by (err not_found) = Keeps-return tt
  fetched-Keeps_by (err (failed m)) = Keeps-fail _

  -- Whatever the spec is that the reconcile finds.
  pub reconcile_request-Keeps_by : Keeps P (reconcile_request C now namespace name)
  unfolding reconcile_request
  reconcile_request-Keeps_by = Keeps-bind _ _ (Keeps-attempt _) fetched-Keeps_by
