-- ===== src/Simulator/Reconcile/Frame.antt =====
-- What a `SimulatorDeployment` may touch: the objects of its enabled parts, and itself.
use llm_d_scheduler_sim_oper.Base.{
  ℕ, String, Bool, true, false, List, [], ◌∷◌, ◌++◌, ◌≡◌, refl, ◌≢◌, if◌then◌else◌,
}
use llm_d_scheduler_sim_oper.Api.{InferenceGatewayConfig, SimulatorDeployment}
use llm_d_scheduler_sim_oper.Kube.Objects.{Kind, Key, Object}
use llm_d_scheduler_sim_oper.Kube.Calls.{Result, ok, err, not_found, failed, ◌>>=◌, when}
use llm_d_scheduler_sim_oper.Kube.Triples.{
  Keeps, Keeps-seq, Keeps-bind, Keeps-attempt, Keeps-return, Keeps-on_enabled, keeps_rules,
}
use llm_d_scheduler_sim_oper.Kube.Client.{Client, IsLawful}
use llm_d_scheduler_sim_oper.Kube.Client.Writes.{
  Reads, Misses, nil, cons, enabled_keys, Misses-enabled, Misses-append, write_rules,
  enabled_keys-Misses, append-Misses, kind_ne,
}
use llm_d_scheduler_sim_oper.Simulator.Content.{simulator_key, legacy_key, legacy_service_key}
use llm_d_scheduler_sim_oper.Simulator.Steps.Frame.{
  stage_keys, simulator_epp_keys, gateway_keys, reconcile_deployment-Keeps, reconcile_service-Keeps,
  reconcile_stage-Keeps, reconcile_epp-Keeps, reconcile_inference_gateways-Keeps,
}
use llm_d_scheduler_sim_oper.Simulator.Reconcile.{
  is_legacy, report, report_status, legacy_step, provision, reconcile_simulator,
  simulator_with_defaults, fetched_simulator, reconcile_request,
}

module _ (d : SimulatorDeployment) where
  abbrev pub standard_keys : InferenceGatewayConfig → List Key
  standard_keys g =
      enabled_keys g.standard (λ x. x.enabled) (λ x. gateway_keys d "infra-sim-inference-gateway")

  abbrev pub istio_keys : InferenceGatewayConfig → List Key
  istio_keys g =
      enabled_keys g.istio (λ x. x.enabled)
        (λ x. gateway_keys d "infra-sim-inference-gateway-istio")

  -- `j` is none of the objects that the resource, with its defaults set, may touch: those of its
  -- enabled parts, those of the single Deployment if neither stage is enabled, and the resource.
  pub record Untouched (j : Key) : Type 0 where
    pub epp : Misses j (enabled_keys d.spec.epp (λ e. e.enabled) (λ e. simulator_epp_keys d))
    pub gateways : Misses j (
        enabled_keys d.spec.inference_gateway
          (λ g. g.enabled)
          (λ g. standard_keys g ++ istio_keys g))
    pub prefill :
        Misses j (enabled_keys d.spec.prefill (λ c. c.enabled) (λ c. stage_keys d "prefill"))
    pub decode : Misses j (enabled_keys d.spec.decode (λ c. c.enabled) (λ c. stage_keys d "decode"))
    pub legacy : Misses j (if is_legacy d then legacy_key d ∷ legacy_service_key d ∷ [] else [])
    pub resource : simulator_key d ≢ j

-- No object of a kind that the controller does not write is touched.
module _ (d : SimulatorDeployment) {j : Key} (cm : Kind.config_map ≢ j.kind)
    (dep : Kind.deployment ≢ j.kind) (svc : Kind.service ≢ j.kind)
    (sim : Kind.simulator_deployment ≢ j.kind) where
  other_gateway : (name : String) → Misses j (gateway_keys d name)
  other_gateway name = cons (kind_ne cm) (cons (kind_ne dep) (cons (kind_ne svc) nil))

  pub other_kind-Untouched : Untouched d j
  other_kind-Untouched = record {
    epp =
        enabled_keys-Misses d.spec.epp _ _
          (λ e. cons (kind_ne cm) (cons (kind_ne dep) (cons (kind_ne svc) nil)));
    gateways = enabled_keys-Misses d.spec.inference_gateway _ _ (λ g.
        append-Misses (enabled_keys-Misses g.standard _ _ (λ x. other_gateway _))
          (enabled_keys-Misses g.istio _ _ (λ x. other_gateway _)));
    prefill =
        enabled_keys-Misses d.spec.prefill _ _ (λ c. cons (kind_ne dep) (cons (kind_ne svc) nil));
    decode =
        enabled_keys-Misses d.spec.decode _ _ (λ c. cons (kind_ne dep) (cons (kind_ne svc) nil));
    legacy =
        elim (is_legacy d)
          as (λ b. Misses j (if b then legacy_key d ∷ legacy_service_key d ∷ [] else [])) [
            | true ↦ cons (kind_ne dep) (cons (kind_ne svc) nil)
            | false ↦ nil
          ];
    resource = kind_ne sim;
  }

module _ {C : Client} (L : IsLawful C) (now : ℕ) (d : SimulatorDeployment) {j : Key}
    {r : Result (Object j.kind)} where
  pub legacy_step-Keeps :
      (b : Bool)
      → Misses j (if b then legacy_key d ∷ legacy_service_key d ∷ [] else [])
      → Keeps (Reads C j r) (when b (legacy_step C now d))
  unfolding legacy_step when
  legacy_step-Keeps true (cons dep (cons svc nil)) =
      Keeps-seq (reconcile_deployment-Keeps L d dep) (reconcile_service-Keeps L d svc)
  legacy_step-Keeps false m = Keeps-return tt

  provision-Keeps : Untouched d j → Keeps (Reads C j r) (provision C now d)
  unfolding provision
  provision-Keeps m =
      Keeps-seq
        (Keeps-on_enabled d.spec.epp _ _
          λ e x t. reconcile_epp-Keeps L d e (Misses-enabled d.spec.epp _ _ m.epp e x t))
        (Keeps-seq
          (Keeps-on_enabled d.spec.inference_gateway _ _ λ g x t.
            let (standard, istio) =
              Misses-append (standard_keys d g) (istio_keys d g)
                (Misses-enabled d.spec.inference_gateway _ _ m.gateways g x t) in
            reconcile_inference_gateways-Keeps L d g standard istio)
          (Keeps-seq
            (Keeps-on_enabled d.spec.prefill _ _ λ c x t.
              reconcile_stage-Keeps L d _ c (Misses-enabled d.spec.prefill _ _ m.prefill c x t))
            (Keeps-seq
              (Keeps-on_enabled d.spec.decode _ _ λ c x t.
                reconcile_stage-Keeps L d _ c (Misses-enabled d.spec.decode _ _ m.decode c x t))
              (Keeps-seq (legacy_step-Keeps (is_legacy d) m.legacy)
                (Keeps-on_enabled d.spec.load_balancing _ _ λ b x t. Keeps-return tt)))))

  report-Keeps :
      (found : Result (Object Kind.deployment))
      → simulator_key d ≢ j
      → Keeps (Reads C j r) (report C now d found)
  unfolding report
  report-Keeps (ok o) ne = search (keeps_rules, write_rules, L)
  report-Keeps (err not_found) ne = search keeps_rules
  report-Keeps (err (failed m)) ne = search keeps_rules

  pub report_status-Keeps : simulator_key d ≢ j → Keeps (Reads C j r) (report_status C now d)
  unfolding report_status
  report_status-Keeps ne = Keeps-bind _ _ (Keeps-attempt _) (λ found. report-Keeps found ne)

  reconcile_simulator-Keeps : Untouched d j → Keeps (Reads C j r) (reconcile_simulator C now d)
  unfolding reconcile_simulator
  reconcile_simulator-Keeps m = Keeps-seq (provision-Keeps m) (report_status-Keeps m.resource)

module _ {C : Client} (L : IsLawful C) (now : ℕ) (namespace name : String) {j : Key}
    {r : Result (Object j.kind)} where
  fetched_simulator-Keeps :
      (found : Result (Object Kind.simulator_deployment))
      → ((o : Object Kind.simulator_deployment)
          → found ≡ ok o
          → Untouched (simulator_with_defaults namespace name o.body.spec) j)
      → Keeps (Reads C j r) (fetched_simulator C now namespace name found)
  unfolding fetched_simulator
  fetched_simulator-Keeps (ok o) h = reconcile_simulator-Keeps L now _ (h o refl)
  fetched_simulator-Keeps (err not_found) h = search keeps_rules
  fetched_simulator-Keeps (err (failed e)) h = search keeps_rules

-- A reconcile of a SimulatorDeployment, whether it succeeds or fails, and whichever calls fail,
-- leaves every object unchanged that is none of the resource's enabled parts'. In particular the
-- single Deployment and its Service are left alone where a stage is enabled.
pub reconcile_request-frame :
    {C : Client} (L : IsLawful C) (now : ℕ) (namespace name : String) (s : C.State) (j : Key)
    → ((o : Object Kind.simulator_deployment)
        → C.get s (record { kind = Kind.simulator_deployment; namespace = namespace; name = name })
          ≡ ok o
        → Untouched (simulator_with_defaults namespace name o.body.spec) j)
    → C.get (reconcile_request C now namespace name s).1 j ≡ C.get s j
unfolding reconcile_request ◌>>=◌
reconcile_request-frame {C} L now namespace name s j h =
    ((fetched_simulator-Keeps L now namespace name (C.get s _) h).at s
      (record { reads = refl })).reads
