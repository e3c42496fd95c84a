-- ===== src/Simulator/Reconcile/Total.antt =====
-- A reconcile of a `SimulatorDeployment` on a healthy cluster.
use mathlib.Core.Path.{subst}
use llm_d_scheduler_sim_oper.Base.{ℕ, String, Bool, [], ◌∷◌, ◌≡◌, ◌≢◌, refl, sym}
use llm_d_scheduler_sim_oper.Api.{
  StageConfig, EppConfig, GatewayInstanceConfig, InferenceGatewayConfig, SimulatorDeployment,
}
use llm_d_scheduler_sim_oper.Kube.Objects.{Kind, Key, Body, Object}
use llm_d_scheduler_sim_oper.Kube.Calls.{Result, ok, err, not_found, failed, return, lift, ◌>>=◌}
use llm_d_scheduler_sim_oper.Kube.Triples.{Keeps, Keeps-seq, Keeps-on_enabled}
use llm_d_scheduler_sim_oper.Kube.Client.{Client, IsLawful, Holds}
use llm_d_scheduler_sim_oper.Kube.Client.Writes.{Keeps-Holds, kind_ne, Misses, nil, cons}
use llm_d_scheduler_sim_oper.Kube.Client.Healthy.{
  IsHealthy, Returns, Returns-return, Returns-seq, Returns-when, Returns-enabled,
}
use llm_d_scheduler_sim_oper.Simulator.Content.{
  simulator_key, legacy_key, legacy_service_key, legacy_deployment, legacy_service,
  stage_deployment, stage_service,
}
use llm_d_scheduler_sim_oper.Simulator.EppContent.{epp_config_map, epp_deployment, epp_service}
use llm_d_scheduler_sim_oper.Simulator.GatewayContent.{
  gateway_config_map, gateway_deployment, gateway_service,
}
use llm_d_scheduler_sim_oper.Simulator.Writes.{create_if_missing}
use llm_d_scheduler_sim_oper.Simulator.Writes.Settled.{
  create_if_missing-Keeps, create_or-Keeps, scale-Keeps,
}
use llm_d_scheduler_sim_oper.Simulator.Writes.Healthy.{create_or-Returns, missing_Returns, scale_ok}
use llm_d_scheduler_sim_oper.Simulator.Steps.{
  reconcile_deployment, reconcile_service, write_stage, reconcile_stage, reconcile_epp_config,
  write_epp, reconcile_epp, write_gateway, reconcile_gateway_instance, reconcile_inference_gateways,
}
use llm_d_scheduler_sim_oper.Simulator.Steps.Frame.{
  stage_keys, simulator_epp_keys, gateway_keys, reconcile_gateway_instance-Keeps,
}
use llm_d_scheduler_sim_oper.Simulator.Reconcile.{
  report, report_status, reported_key, reported_status, legacy_step, provision, reconcile_simulator,
  simulator_with_defaults, fetched_simulator, reconcile_request,
}
use llm_d_scheduler_sim_oper.Simulator.Reconcile.Blocks.{
  epp_block, gateways_block, stage_block, legacy_block, rule_block,
}

-- The resource is still stored.
abbrev Present : (C : Client) → SimulatorDeployment → C.State → Type 0
Present C d = Holds C (simulator_key d) (λ b. Unit {0})

module _ {C : Client} (H : IsHealthy C) (L : IsLawful C) (now : ℕ) (d : SimulatorDeployment) where
  missing_Present :
      (owner k : Key) (b : Body k.kind)
      → k.kind ≢ Kind.simulator_deployment
      → Keeps (Present C d) (create_if_missing C owner k b)
  missing_Present owner k b ne =
      Keeps-Holds _ _ _ (λ r. create_if_missing-Keeps L owner k b (kind_ne ne))

  stage_Returns :
      (stage : String) (c : StageConfig) → Returns (Present C d) (reconcile_stage C d stage c)
  unfolding reconcile_stage write_stage stage_deployment stage_service
  stage_Returns stage c =
      Returns-seq (create_or-Returns H _ _ _ _ refl refl (scale_ok H _ _ _))
        (Keeps-Holds _ _ _ λ r.
          create_or-Keeps L _ _ _ _ (kind_ne (λ x. cc))
            (λ o. scale-Keeps L _ _ _ o (kind_ne (λ x. cc))))
        (missing_Returns H _ _ _ refl refl)

  legacy_Returns : Returns (Present C d) (legacy_step C now d)
  unfolding legacy_step reconcile_deployment reconcile_service legacy_deployment legacy_service
  legacy_Returns =
      Returns-seq (create_or-Returns H _ _ _ _ refl refl (scale_ok H _ _ _))
        (Keeps-Holds _ _ _ λ r.
          create_or-Keeps L _ _ _ _ (kind_ne (λ x. cc))
            (λ o. scale-Keeps L _ _ _ o (kind_ne (λ x. cc))))
        (missing_Returns H _ _ _ refl refl)

  epp_Returns : (e : EppConfig) → Returns (Present C d) (reconcile_epp C d e)
  unfolding reconcile_epp reconcile_epp_config write_epp epp_config_map epp_deployment epp_service
  epp_Returns e =
      Returns-seq (missing_Returns H _ _ _ refl refl) (missing_Present _ _ _ (λ x. cc)) (
        Returns-seq (missing_Returns H _ _ _ refl refl) (missing_Present _ _ _ (λ x. cc))
          (missing_Returns H _ _ _ refl refl))

  gateway_Returns :
      (name : String) (is_istio : Bool) (g : GatewayInstanceConfig)
      → Returns (Present C d) (reconcile_gateway_instance C d name is_istio g)
  unfolding reconcile_gateway_instance write_gateway gateway_config_map gateway_deployment
      gateway_service
  gateway_Returns name is_istio g =
      Returns-seq (missing_Returns H _ _ _ refl refl) (missing_Present _ _ _ (λ x. cc)) (
        Returns-seq (missing_Returns H _ _ _ refl refl) (missing_Present _ _ _ (λ x. cc))
          (missing_Returns H _ _ _ refl refl))

  gateways_Returns :
      (g : InferenceGatewayConfig) → Returns (Present C d) (reconcile_inference_gateways C d g)
  unfolding reconcile_inference_gateways
  gateways_Returns g =
      Returns-seq (Returns-enabled g.standard _ _ (λ x. gateway_Returns _ _ x))
        (Keeps-Holds _ _ _ λ r. Keeps-on_enabled g.standard _ _ λ x e t.
          reconcile_gateway_instance-Keeps L d _ _ x
            (cons (λ y. cc) (cons (λ y. cc) (cons (λ y. cc) nil))))
        (Returns-enabled g.istio _ _ (λ x. gateway_Returns _ _ x))

  report_ok :
      (found : Result (Object Kind.deployment)) (s : C.State)
      → C.get s (reported_key d) ≡ found
      → Present C d s
      → (report C now d found s).0 ≡ ok tt
  unfolding report return ◌>>=◌
  report_ok (ok o) s there p =
      subst
        (λ r.
          ((lift r >>= λ latest.
          C.update_status (simulator_key d) (reported_status now o.status latest.status))
            s).0
          ≡ ok tt)
        (sym p.stored) (H.update_status_ok (simulator_key d) _ p.object s p.stored)
  report_ok (err not_found) s there p = refl
  report_ok (err (failed m)) s there p = absurd (H.get_answers _ s m there)

  report_Returns : Returns (Present C d) (report_status C now d)
  unfolding report_status ◌>>=◌
  report_Returns = record { at = λ s p. report_ok (C.get s (reported_key d)) s refl p }

  epp_apart : Misses (simulator_key d) (simulator_epp_keys d)
  epp_apart = cons (λ x. cc) (cons (λ x. cc) (cons (λ x. cc) nil))

  gateway_apart : (name : String) → Misses (simulator_key d) (gateway_keys d name)
  gateway_apart name = cons (λ x. cc) (cons (λ x. cc) (cons (λ x. cc) nil))

  stage_apart : (stage : String) → Misses (simulator_key d) (stage_keys d stage)
  stage_apart stage = cons (λ x. cc) (cons (λ x. cc) nil)

  legacy_apart : Misses (simulator_key d) (legacy_key d ∷ legacy_service_key d ∷ [])
  legacy_apart = cons (λ x. cc) (cons (λ x. cc) nil)

  provision-Present : Keeps (Present C d) (provision C now d)
  unfolding provision
  provision-Present = Keeps-Holds _ _ _ λ r. Keeps-seq (epp_block L now d epp_apart r) (
      Keeps-seq (gateways_block L now d (gateway_apart _) (gateway_apart _) r) (
        Keeps-seq (stage_block L now d _ d.spec.prefill (stage_apart "prefill") r) (
          Keeps-seq (stage_block L now d _ d.spec.decode (stage_apart "decode") r)
            (Keeps-seq (legacy_block L now d (λ on. legacy_apart) r) (rule_block L now d r)))))

  provision-Returns : Returns (Present C d) (provision C now d)
  unfolding provision
  provision-Returns =
      Returns-seq (Returns-enabled d.spec.epp _ _ epp_Returns)
        (Keeps-Holds _ _ _ (epp_block L now d epp_apart))
        (Returns-seq (Returns-enabled d.spec.inference_gateway _ _ gateways_Returns)
          (Keeps-Holds _ _ _ (gateways_block L now d (gateway_apart _) (gateway_apart _)))
          (Returns-seq (Returns-enabled d.spec.prefill _ _ (stage_Returns _))
            (Keeps-Holds _ _ _ (stage_block L now d _ d.spec.prefill (stage_apart "prefill")))
            (Returns-seq (Returns-enabled d.spec.decode _ _ (stage_Returns _))
              (Keeps-Holds _ _ _ (stage_block L now d _ d.spec.decode (stage_apart "decode")))
              (Returns-seq (Returns-when _ legacy_Returns)
                (Keeps-Holds _ _ _ (legacy_block L now d (λ on. legacy_apart)))
                (Returns-enabled d.spec.load_balancing _ _ (λ b. Returns-return))))))

  simulator_Returns : Returns (Present C d) (reconcile_simulator C now d)
  unfolding reconcile_simulator
  simulator_Returns = Returns-seq provision-Returns provision-Present report_Returns

-- On a cluster where no call fails for a reason of its own, a reconcile of a SimulatorDeployment
-- returns no error, whatever the resource says, whichever objects are there, and also if the
-- resource itself is gone.
pub reconcile_request-succeeds :
    {C : Client} (H : IsHealthy C) (L : IsLawful C) (now : ℕ) (namespace name : String)
    (s : C.State)
    → (reconcile_request C now namespace name s).0 ≡ ok tt
unfolding reconcile_request fetched_simulator ◌>>=◌ return
reconcile_request-succeeds {C} H L now namespace name s = go (C.get s _) refl
  where
    go :
        (found : Result (Object Kind.simulator_deployment))
        → C.get s (record { kind = Kind.simulator_deployment; namespace = namespace; name = name })
          ≡ found
        → (fetched_simulator C now namespace name found s).0 ≡ ok tt
    go (ok o) there =
        (simulator_Returns H L now (simulator_with_defaults namespace name o.body.spec)).at s
          (record { object = o; stored = there; meets = tt })
    go (err not_found) there = refl
    go (err (failed m)) there = absurd (H.get_answers _ s m there)
