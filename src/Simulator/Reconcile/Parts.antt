-- ===== src/Simulator/Reconcile/Parts.antt =====
-- The parts of `Provisioned`, each from its own block of `Reconcile`.
use mathlib.Core.Path.{ap, subst, ◌∙◌}
use llm_d_scheduler_sim_oper.Base.{
  ℕ, String, true, false, ◌≡◌, refl, sym, ◌≢◌, str_eq, str_eq_iff, arith,
}
use llm_d_scheduler_sim_oper.Api.{StageConfig, EppConfig, SimulatorDeployment}
use llm_d_scheduler_sim_oper.Kube.Objects.{Key, Object}
use llm_d_scheduler_sim_oper.Kube.Calls.{Result, on_enabled}
use llm_d_scheduler_sim_oper.Kube.Client.{Client, IsLawful}
use llm_d_scheduler_sim_oper.Kube.Client.Writes.{Misses, nil, cons}
use llm_d_scheduler_sim_oper.Simulator.Defaults.{default_epp_config, default_stage}
use llm_d_scheduler_sim_oper.Simulator.Content.{simulator_key, stage_name}
use llm_d_scheduler_sim_oper.Simulator.Steps.{
  reconcile_stage, reconcile_epp, reconcile_inference_gateways,
}
use llm_d_scheduler_sim_oper.Simulator.Steps.Frame.{stage_keys, simulator_epp_keys, gateway_keys}
use llm_d_scheduler_sim_oper.Simulator.Steps.Outcome.{
  LegacyMoves, StageMoves, EppMoves, reconcile_stage-Moves, legacy-Moves, reconcile_epp-Moves,
}
use llm_d_scheduler_sim_oper.Simulator.Writes.Moves.{Moves, Moves-enabled}
use llm_d_scheduler_sim_oper.Simulator.Reconcile.{is_legacy, legacy_step, reconcile_simulator}
use llm_d_scheduler_sim_oper.Simulator.Reconcile.Blocks.{
  OffLegacy, in_epp, in_gateways, in_prefill, in_decode, in_legacy, whole,
}
use llm_d_scheduler_sim_oper.Simulator.Reconcile.Provisioned.{
  FixedName, prefill, decode, epp, standard, istio, IsApart, On,
}

name_ne : {k j : Key} → k.name ≢ j.name → k ≢ j
name_ne ne e = ne (ap (λ (x : Key). x.name) e)

pub differs : (s t : String) → str_eq s t ≡ false → s ≢ t
differs s t e = ground (arith, str_eq_iff s t)

module _ (d : SimulatorDeployment) {j : Key} where
  pub off_epp : "gaie-sim-epp" ≢ j.name → Misses j (simulator_epp_keys d)
  off_epp ne = cons (name_ne ne) (cons (name_ne ne) (cons (name_ne ne) nil))

  pub off_gateway : (name : String) → name ≢ j.name → Misses j (gateway_keys d name)
  off_gateway name ne = cons (name_ne ne) (cons (name_ne ne) (cons (name_ne ne) nil))

  off_stage : (stage : String) → stage_name stage ≢ j.name → Misses j (stage_keys d stage)
  off_stage stage ne = cons (name_ne ne) (cons (name_ne ne) nil)

  off_legacy : IsApart d → FixedName j.name → OffLegacy d j
  off_legacy apart fixed on =
      cons (name_ne (λ x. apart.deployment _ on fixed (sym x)))
        (cons (name_ne (λ x. apart.service _ on fixed (sym x))) nil)

module _ {C : Client} (L : IsLawful C) (now : ℕ) (d : SimulatorDeployment) (apart : IsApart d) where
  module _ (on : is_legacy d ≡ true) {j : Key}
      {R : Result (Object j.kind) → Result (Object j.kind) → Type 0} where
    whole_legacy-Moves :
        simulator_key d ≢ j
        → ((n : String) → FixedName n → n ≢ j.name)
        → Moves C j R (legacy_step C now d)
        → Moves C j R (reconcile_simulator C now d)
    whole_legacy-Moves other ne moved = whole L now d other (
        in_legacy L now d moved on (off_epp d (ne _ epp)) (off_gateway d _ (ne _ standard))
          (off_gateway d _ (ne _ istio)) (off_stage d _ (ne _ prefill))
          (off_stage d _ (ne _ decode)))

  pub legacy_part : is_legacy d ≡ true → LegacyMoves C d (reconcile_simulator C now d)
  unfolding legacy_step
  legacy_part on = record {
    deployment =
        whole_legacy-Moves on (λ x. cc) (λ n. apart.deployment n on) (legacy-Moves L d).deployment;
    service = whole_legacy-Moves on (λ x. cc) (λ n. apart.service n on) (legacy-Moves L d).service;
  }

  module _ {j : Key} {R : Result (Object j.kind) → Result (Object j.kind) → Type 0} where
    whole_prefill-Moves :
        simulator_key d ≢ j
        → stage_name "prefill" ≡ j.name
        → Moves C j R (on_enabled d.spec.prefill (λ c. c.enabled) (reconcile_stage C d "prefill"))
        → Moves C j R (reconcile_simulator C now d)
    unfolding stage_name str_eq
    whole_prefill-Moves other named moved = whole L now d other (
        in_prefill L now d moved
          (off_epp d (λ x. differs _ (stage_name "prefill") refl (x ∙ sym named)))
          (off_gateway d _ (λ x. differs _ (stage_name "prefill") refl (x ∙ sym named)))
          (off_gateway d _ (λ x. differs _ (stage_name "prefill") refl (x ∙ sym named)))
          (off_stage d "decode" (λ x. differs _ (stage_name "prefill") refl (x ∙ sym named)))
          (off_legacy d apart (subst FixedName named prefill)))

    whole_decode-Moves :
        simulator_key d ≢ j
        → stage_name "decode" ≡ j.name
        → Moves C j R (on_enabled d.spec.decode (λ c. c.enabled) (reconcile_stage C d "decode"))
        → Moves C j R (reconcile_simulator C now d)
    unfolding stage_name str_eq
    whole_decode-Moves other named moved = whole L now d other (
        in_decode L now d moved
          (off_epp d (λ x. differs _ (stage_name "decode") refl (x ∙ sym named)))
          (off_gateway d _ (λ x. differs _ (stage_name "decode") refl (x ∙ sym named)))
          (off_gateway d _ (λ x. differs _ (stage_name "decode") refl (x ∙ sym named)))
          (off_stage d "prefill" (λ x. differs _ (stage_name "decode") refl (x ∙ sym named)))
          (off_legacy d apart (subst FixedName named decode)))

    whole_epp-Moves :
        simulator_key d ≢ j
        → "gaie-sim-epp" ≡ j.name
        → Moves C j R (on_enabled d.spec.epp (λ e. e.enabled) (reconcile_epp C d))
        → Moves C j R (reconcile_simulator C now d)
    unfolding stage_name str_eq
    whole_epp-Moves other named moved = whole L now d other (
        in_epp L now d moved (off_gateway d _ (λ x. differs _ "gaie-sim-epp" refl (x ∙ sym named)))
          (off_gateway d _ (λ x. differs _ "gaie-sim-epp" refl (x ∙ sym named)))
          (off_stage d "prefill" (λ x. differs _ "gaie-sim-epp" refl (x ∙ sym named)))
          (off_stage d "decode" (λ x. differs _ "gaie-sim-epp" refl (x ∙ sym named)))
          (off_legacy d apart (subst FixedName named epp)))

    pub whole_gateway-Moves :
        simulator_key d ≢ j
        → FixedName j.name
        → "gaie-sim-epp" ≢ j.name
        → stage_name "prefill" ≢ j.name
        → stage_name "decode" ≢ j.name
        → Moves C j R (
            on_enabled d.spec.inference_gateway (λ g. g.enabled) (reconcile_inference_gateways C d))
        → Moves C j R (reconcile_simulator C now d)
    whole_gateway-Moves other fixed e p q moved = whole L now d other (
        in_gateways L now d moved (off_epp d e) (off_stage d _ p) (off_stage d _ q)
          (off_legacy d apart fixed))

  pub prefill_part :
      (c : StageConfig)
      → On C d (reconcile_simulator C now d) d.spec.prefill (λ c. c.enabled) c
      → StageMoves C d (reconcile_simulator C now d) "prefill" (default_stage d c)
  prefill_part c (there, on) =
      let moved = reconcile_stage-Moves L d "prefill" c in
      record {
        deployment =
            whole_prefill-Moves (λ x. cc) refl
              (Moves-enabled d.spec.prefill _ _ c there on moved.deployment);
        service =
            whole_prefill-Moves (λ x. cc) refl
              (Moves-enabled d.spec.prefill _ _ c there on moved.service);
      }

  pub decode_part :
      (c : StageConfig)
      → On C d (reconcile_simulator C now d) d.spec.decode (λ c. c.enabled) c
      → StageMoves C d (reconcile_simulator C now d) "decode" (default_stage d c)
  decode_part c (there, on) =
      let moved = reconcile_stage-Moves L d "decode" c in
      record {
        deployment =
            whole_decode-Moves (λ x. cc) refl
              (Moves-enabled d.spec.decode _ _ c there on moved.deployment);
        service =
            whole_decode-Moves (λ x. cc) refl
              (Moves-enabled d.spec.decode _ _ c there on moved.service);
      }

  pub epp_part :
      (e : EppConfig)
      → On C d (reconcile_simulator C now d) d.spec.epp (λ e. e.enabled) e
      → EppMoves C d (reconcile_simulator C now d) (default_epp_config e)
  epp_part e (there, on) =
      let moved = reconcile_epp-Moves L d e in
      record {
        config =
            whole_epp-Moves (λ x. cc) refl (Moves-enabled d.spec.epp _ _ e there on moved.config);
        deployment =
            whole_epp-Moves (λ x. cc) refl
              (Moves-enabled d.spec.epp _ _ e there on moved.deployment);
        service =
            whole_epp-Moves (λ x. cc) refl (Moves-enabled d.spec.epp _ _ e there on moved.service);
      }
