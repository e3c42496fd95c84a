-- ===== src/Simulator/Reconcile/Provisioned.antt =====
-- Where a `SimulatorDeployment` leads: what a run that returns no error makes of every object.
use llm_d_scheduler_sim_oper.Base.{String, Bool, true, false, Option, some, ◌≡◌, ◌≢◌}
use llm_d_scheduler_sim_oper.Api.{
  StageConfig, EppConfig, GatewayInstanceConfig, InferenceGatewayConfig, SimulatorDeployment,
}
use llm_d_scheduler_sim_oper.Kube.Calls.{Call}
use llm_d_scheduler_sim_oper.Kube.Client.{Client}
use llm_d_scheduler_sim_oper.Simulator.Defaults.{
  default_epp_config, default_instance, default_stage,
}
use llm_d_scheduler_sim_oper.Simulator.Content.{legacy_name, stage_name}
use llm_d_scheduler_sim_oper.Simulator.Steps.Outcome.{
  LegacyMoves, StageMoves, EppMoves, GatewayMoves,
}
use llm_d_scheduler_sim_oper.Simulator.Reconcile.{is_legacy}

-- The names that the stages, the EPP and the gateways have, whatever the resource is called.
pub data FixedName : String → Type 0 where
  prefill : FixedName (stage_name "prefill")
  decode : FixedName (stage_name "decode")
  epp : FixedName "gaie-sim-epp"
  standard : FixedName "infra-sim-inference-gateway"
  istio : FixedName "infra-sim-inference-gateway-istio"

-- Where the single Deployment is used, neither it nor its Service has one of these names.
pub record IsApart (d : SimulatorDeployment) : Type 0 where
  pub deployment : (n : String) → is_legacy d ≡ true → FixedName n → n ≢ legacy_name d
  pub service : (n : String) → is_legacy d ≡ true → FixedName n → n ≢ d.spec.service.name

module _ (C : Client) (d : SimulatorDeployment) (m : Call C.State (Unit {0})) where
  abbrev pub On : {A : Type 0} → Option A → (A → Bool) → A → Type 0
  On o enabled a = (o ≡ some a) × (enabled a ≡ true)

  -- Every enabled part is in place after the run: an object that was missing is created as built,
  -- with the resource as its controller, and one that was there is as it was, but for the replicas
  -- of a stage's Deployment or of the single one, which are those of the spec.
  pub record Provisioned : Type 0 where
    pub epp :
        (e : EppConfig) → On d.spec.epp (λ e. e.enabled) e → EppMoves C d m (default_epp_config e)
    pub standard :
        (g : InferenceGatewayConfig) (x : GatewayInstanceConfig)
        → On d.spec.inference_gateway (λ g. g.enabled) g
        → On g.standard (λ x. x.enabled) x
        → GatewayMoves C d m "infra-sim-inference-gateway" false (default_instance false x)
    pub istio :
        (g : InferenceGatewayConfig) (x : GatewayInstanceConfig)
        → On d.spec.inference_gateway (λ g. g.enabled) g
        → On g.istio (λ x. x.enabled) x
        → GatewayMoves C d m "infra-sim-inference-gateway-istio" true (default_instance true x)
    pub prefill :
        (c : StageConfig)
        → On d.spec.prefill (λ c. c.enabled) c
        → StageMoves C d m "prefill" (default_stage d c)
    pub decode :
        (c : StageConfig)
        → On d.spec.decode (λ c. c.enabled) c
        → StageMoves C d m "decode" (default_stage d c)
    pub legacy : is_legacy d ≡ true → LegacyMoves C d m
