-- ===== src/Simulator/Reconcile/Blocks.antt =====
-- The blocks of the SimulatorDeployment controller's `Reconcile`: what each keeps, and how what one
-- block makes of an object comes through the whole of them.
use llm_d_scheduler_sim_oper.Base.{
  ℕ, String, Bool, true, false, Option, none, some, List, [], ◌∷◌, ◌≡◌, refl, ◌≢◌, if◌then◌else◌,
}
use llm_d_scheduler_sim_oper.Api.{StageConfig, SimulatorDeployment}
use llm_d_scheduler_sim_oper.Kube.Objects.{Key, Object}
use llm_d_scheduler_sim_oper.Kube.Calls.{Result, return, on_enabled, when}
use llm_d_scheduler_sim_oper.Kube.Triples.{Keeps, Keeps-seq, Keeps-return, Keeps-on_enabled}
use llm_d_scheduler_sim_oper.Kube.Client.{Client, IsLawful}
use llm_d_scheduler_sim_oper.Kube.Client.Writes.{Reads, Misses, nil, enabled_keys}
use llm_d_scheduler_sim_oper.Simulator.Content.{simulator_key, legacy_key, legacy_service_key}
use llm_d_scheduler_sim_oper.Simulator.Steps.{
  reconcile_stage, reconcile_epp, reconcile_inference_gateways,
}
use llm_d_scheduler_sim_oper.Simulator.Steps.Frame.{
  stage_keys, simulator_epp_keys, gateway_keys, reconcile_stage-Keeps, reconcile_epp-Keeps,
  reconcile_inference_gateways-Keeps,
}
use llm_d_scheduler_sim_oper.Simulator.Writes.Moves.{Moves, Moves-first, Moves-later, Moves-when}
use llm_d_scheduler_sim_oper.Simulator.Reconcile.{
  is_legacy, legacy_step, provision, reconcile_simulator,
}
use llm_d_scheduler_sim_oper.Simulator.Reconcile.Frame.{legacy_step-Keeps, report_status-Keeps}

enabled-Misses :
    {A : Type 0} {j : Key} {ks : List Key} (o : Option A) (enabled : A → Bool)
    → Misses j ks
    → Misses j (enabled_keys o enabled (λ a. ks))
enabled-Misses none enabled m = nil
enabled-Misses {j = j} {ks = ks} (some a) enabled m = go (enabled a)
  where
    go : (b : Bool) → Misses j (if b then ks else [])
    go true = m
    go false = nil

-- `j` is none of the single Deployment's two objects, if these are used.
abbrev pub OffLegacy : SimulatorDeployment → Key → Type 0
OffLegacy d j = is_legacy d ≡ true → Misses j (legacy_key d ∷ legacy_service_key d ∷ [])

module _ {C : Client} (L : IsLawful C) (now : ℕ) (d : SimulatorDeployment) {j : Key} where
  pub epp_block :
      Misses j (simulator_epp_keys d)
      → (r : Result (Object j.kind))
      → Keeps (Reads C j r) (on_enabled d.spec.epp (λ e. e.enabled) (reconcile_epp C d))
  epp_block m r = Keeps-on_enabled d.spec.epp _ _ (λ e x t. reconcile_epp-Keeps L d e m)

  pub gateways_block :
      Misses j (gateway_keys d "infra-sim-inference-gateway")
      → Misses j (gateway_keys d "infra-sim-inference-gateway-istio")
      → (r : Result (Object j.kind))
      → Keeps
          (Reads C j r)
          (on_enabled d.spec.inference_gateway (λ g. g.enabled) (reconcile_inference_gateways C d))
  gateways_block standard istio r = Keeps-on_enabled d.spec.inference_gateway _ _ λ g x t.
      reconcile_inference_gateways-Keeps L d g (enabled-Misses g.standard _ standard)
        (enabled-Misses g.istio _ istio)

  pub stage_block :
      (stage : String) (o : Option StageConfig)
      → Misses j (stage_keys d stage)
      → (r : Result (Object j.kind))
      → Keeps (Reads C j r) (on_enabled o (λ c. c.enabled) (reconcile_stage C d stage))
  stage_block stage o m r = Keeps-on_enabled o _ _ (λ c x t. reconcile_stage-Keeps L d stage c m)

  pub legacy_block :
      OffLegacy d j
      → (r : Result (Object j.kind))
      → Keeps (Reads C j r) (when (is_legacy d) (legacy_step C now d))
  legacy_block h r = legacy_step-Keeps L now d (is_legacy d) (go (is_legacy d) h)
    where
      go :
          (b : Bool)
          → (b ≡ true → Misses j (legacy_key d ∷ legacy_service_key d ∷ []))
          → Misses j (if b then legacy_key d ∷ legacy_service_key d ∷ [] else [])
      go true h = h refl
      go false h = nil

  pub rule_block :
      (r : Result (Object j.kind))
      → Keeps (Reads C j r) (on_enabled d.spec.load_balancing (λ b. b.enabled) (λ b. return tt))
  rule_block r = Keeps-on_enabled d.spec.load_balancing _ _ (λ b x t. Keeps-return tt)

  module _ {R : Result (Object j.kind) → Result (Object j.kind) → Type 0} where
    pub in_epp :
        Moves C j R (on_enabled d.spec.epp (λ e. e.enabled) (reconcile_epp C d))
        → Misses j (gateway_keys d "infra-sim-inference-gateway")
        → Misses j (gateway_keys d "infra-sim-inference-gateway-istio")
        → Misses j (stage_keys d "prefill")
        → Misses j (stage_keys d "decode")
        → OffLegacy d j
        → Moves C j R (provision C now d)
    unfolding provision
    in_epp moved standard istio prefill decode legacy = Moves-first moved λ r.
        Keeps-seq (gateways_block standard istio r) (
          Keeps-seq (stage_block _ _ prefill r) (
            Keeps-seq (stage_block _ _ decode r)
              (Keeps-seq (legacy_block legacy r) (rule_block r))))

    pub in_gateways :
        Moves C j R
          (on_enabled d.spec.inference_gateway (λ g. g.enabled) (reconcile_inference_gateways C d))
        → Misses j (simulator_epp_keys d)
        → Misses j (stage_keys d "prefill")
        → Misses j (stage_keys d "decode")
        → OffLegacy d j
        → Moves C j R (provision C now d)
    unfolding provision
    in_gateways moved epp prefill decode legacy = Moves-later (epp_block epp) (
        Moves-first moved λ r.
          Keeps-seq (stage_block _ _ prefill r) (
            Keeps-seq (stage_block _ _ decode r)
              (Keeps-seq (legacy_block legacy r) (rule_block r))))

    pub in_prefill :
        Moves C j R (on_enabled d.spec.prefill (λ c. c.enabled) (reconcile_stage C d "prefill"))
        → Misses j (simulator_epp_keys d)
        → Misses j (gateway_keys d "infra-sim-inference-gateway")
        → Misses j (gateway_keys d "infra-sim-inference-gateway-istio")
        → Misses j (stage_keys d "decode")
        → OffLegacy d j
        → Moves C j R (provision C now d)
    unfolding provision
    in_prefill moved epp standard istio decode legacy = Moves-later (epp_block epp) (
        Moves-later (gateways_block standard istio) (
          Moves-first moved λ r.
            Keeps-seq (stage_block _ _ decode r)
              (Keeps-seq (legacy_block legacy r) (rule_block r))))

    pub in_decode :
        Moves C j R (on_enabled d.spec.decode (λ c. c.enabled) (reconcile_stage C d "decode"))
        → Misses j (simulator_epp_keys d)
        → Misses j (gateway_keys d "infra-sim-inference-gateway")
        → Misses j (gateway_keys d "infra-sim-inference-gateway-istio")
        → Misses j (stage_keys d "prefill")
        → OffLegacy d j
        → Moves C j R (provision C now d)
    unfolding provision
    in_decode moved epp standard istio prefill legacy = Moves-later (epp_block epp) (
        Moves-later (gateways_block standard istio) (
          Moves-later (stage_block _ _ prefill)
            (Moves-first moved λ r. Keeps-seq (legacy_block legacy r) (rule_block r))))

    pub in_legacy :
        Moves C j R (legacy_step C now d)
        → is_legacy d ≡ true
        → Misses j (simulator_epp_keys d)
        → Misses j (gateway_keys d "infra-sim-inference-gateway")
        → Misses j (gateway_keys d "infra-sim-inference-gateway-istio")
        → Misses j (stage_keys d "prefill")
        → Misses j (stage_keys d "decode")
        → Moves C j R (provision C now d)
    unfolding provision
    in_legacy moved on epp standard istio prefill decode = Moves-later (epp_block epp) (
        Moves-later (gateways_block standard istio) (
          Moves-later (stage_block _ _ prefill)
            (Moves-later (stage_block _ _ decode) (Moves-first (Moves-when on moved) rule_block))))

    -- The status write touches none of these objects.
    pub whole :
        simulator_key d ≢ j
        → Moves C j R (provision C now d)
        → Moves C j R (reconcile_simulator C now d)
    unfolding reconcile_simulator
    whole ne moved = Moves-first moved (λ r. report_status-Keeps L now d ne)
