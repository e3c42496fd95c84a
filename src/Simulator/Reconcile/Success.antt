-- ===== src/Simulator/Reconcile/Success.antt =====
-- A reconcile of a `SimulatorDeployment` that returns no error.
use mathlib.Core.Path.{subst, ◌∙◌}
use llm_d_scheduler_sim_oper.Base.{ℕ, String, true, false, some, ◌≡◌, refl, sym, ◌≢◌, str_eq}
use llm_d_scheduler_sim_oper.Api.{
  GatewayInstanceConfig, InferenceGatewayConfig, SimulatorDeployment,
}
use llm_d_scheduler_sim_oper.Kube.Objects.{Kind, Key, Object}
use llm_d_scheduler_sim_oper.Kube.Calls.{Result, ok, ◌>>=◌}
use llm_d_scheduler_sim_oper.Kube.Client.{Client, IsLawful}
use llm_d_scheduler_sim_oper.Simulator.Defaults.{default_instance}
use llm_d_scheduler_sim_oper.Simulator.Content.{simulator_key, stage_name}
use llm_d_scheduler_sim_oper.Simulator.Steps.{
  reconcile_gateway_instance, reconcile_inference_gateways,
}
use llm_d_scheduler_sim_oper.Simulator.Steps.Frame.{reconcile_gateway_instance-Keeps}
use llm_d_scheduler_sim_oper.Simulator.Steps.Outcome.{
  GatewayMoves, reconcile_gateway_instance-Moves,
}
use llm_d_scheduler_sim_oper.Simulator.Writes.Moves.{Moves, Moves-first, Moves-later, Moves-enabled}
use llm_d_scheduler_sim_oper.Simulator.Reconcile.{
  reconcile_simulator, reconcile_request, simulator_with_defaults, fetched_simulator,
}
use llm_d_scheduler_sim_oper.Kube.Triples.{Keeps-on_enabled}
use llm_d_scheduler_sim_oper.Simulator.Reconcile.Provisioned.{
  FixedName, standard, istio, IsApart, Provisioned, On,
}
use llm_d_scheduler_sim_oper.Simulator.Reconcile.Parts.{
  off_gateway, differs, legacy_part, whole_gateway-Moves, prefill_part, decode_part, epp_part,
}

module _ {C : Client} (L : IsLawful C) (now : ℕ) (d : SimulatorDeployment) (apart : IsApart d) where
  module _ {j : Key} {R : Result (Object j.kind) → Result (Object j.kind) → Type 0}
      (g : InferenceGatewayConfig) (there : d.spec.inference_gateway ≡ some g)
      (on : g.enabled ≡ true) (other : simulator_key d ≢ j) where
    whole_standard-Moves :
        (x : GatewayInstanceConfig)
        → "infra-sim-inference-gateway" ≡ j.name
        → On C d (reconcile_simulator C now d) g.standard (λ x. x.enabled) x
        → Moves C j R (reconcile_gateway_instance C d "infra-sim-inference-gateway" false x)
        → Moves C j R (reconcile_simulator C now d)
    unfolding reconcile_inference_gateways stage_name str_eq
    whole_standard-Moves x named (there', on') moved =
        whole_gateway-Moves L now d apart other (subst FixedName named standard)
          (λ y. differs _ "infra-sim-inference-gateway" refl (y ∙ sym named))
          (λ y. differs _ "infra-sim-inference-gateway" refl (y ∙ sym named))
          (λ y. differs _ "infra-sim-inference-gateway" refl (y ∙ sym named))
          (Moves-enabled d.spec.inference_gateway _ _ g there on (
            Moves-first (Moves-enabled g.standard _ _ x there' on' moved) (λ r.
              Keeps-on_enabled g.istio _ _ λ y e t. reconcile_gateway_instance-Keeps L d _ true y (
                off_gateway d _
                  (λ z. differs _ "infra-sim-inference-gateway" refl (z ∙ sym named))))))

    whole_istio-Moves :
        (x : GatewayInstanceConfig)
        → "infra-sim-inference-gateway-istio" ≡ j.name
        → On C d (reconcile_simulator C now d) g.istio (λ x. x.enabled) x
        → Moves C j R (reconcile_gateway_instance C d "infra-sim-inference-gateway-istio" true x)
        → Moves C j R (reconcile_simulator C now d)
    unfolding reconcile_inference_gateways stage_name str_eq
    whole_istio-Moves x named (there', on') moved =
        whole_gateway-Moves L now d apart other (subst FixedName named istio)
          (λ y. differs _ "infra-sim-inference-gateway-istio" refl (y ∙ sym named))
          (λ y. differs _ "infra-sim-inference-gateway-istio" refl (y ∙ sym named))
          (λ y. differs _ "infra-sim-inference-gateway-istio" refl (y ∙ sym named))
          (Moves-enabled d.spec.inference_gateway _ _ g there on (
            Moves-later
              (λ r. Keeps-on_enabled g.standard _ _ λ y e t.
                reconcile_gateway_instance-Keeps L d _ false y (
                  off_gateway d _
                    (λ z. differs _ "infra-sim-inference-gateway-istio" refl (z ∙ sym named))))
              (Moves-enabled g.istio _ _ x there' on' moved)))

  standard_part :
      (g : InferenceGatewayConfig) (x : GatewayInstanceConfig)
      → On C d (reconcile_simulator C now d) d.spec.inference_gateway (λ g. g.enabled) g
      → On C d (reconcile_simulator C now d) g.standard (λ x. x.enabled) x
      → GatewayMoves C d
          (reconcile_simulator C now d)
          "infra-sim-inference-gateway"
          false
          (default_instance false x)
  standard_part g x (there, on) on' =
      let moved = reconcile_gateway_instance-Moves L d "infra-sim-inference-gateway" false x in
      record {
        config = whole_standard-Moves g there on (λ y. cc) x refl on' moved.config;
        deployment = whole_standard-Moves g there on (λ y. cc) x refl on' moved.deployment;
        service = whole_standard-Moves g there on (λ y. cc) x refl on' moved.service;
      }

  istio_part :
      (g : InferenceGatewayConfig) (x : GatewayInstanceConfig)
      → On C d (reconcile_simulator C now d) d.spec.inference_gateway (λ g. g.enabled) g
      → On C d (reconcile_simulator C now d) g.istio (λ x. x.enabled) x
      → GatewayMoves C d
          (reconcile_simulator C now d)
          "infra-sim-inference-gateway-istio"
          true
          (default_instance true x)
  istio_part g x (there, on) on' =
      let moved = reconcile_gateway_instance-Moves L d "infra-sim-inference-gateway-istio" true x in
      record {
        config = whole_istio-Moves g there on (λ y. cc) x refl on' moved.config;
        deployment = whole_istio-Moves g there on (λ y. cc) x refl on' moved.deployment;
        service = whole_istio-Moves g there on (λ y. cc) x refl on' moved.service;
      }

  pub reconcile_simulator-Provisioned : Provisioned C d (reconcile_simulator C now d)
  reconcile_simulator-Provisioned = record {
    epp = epp_part L now d apart;
    standard = standard_part;
    istio = istio_part;
    prefill = prefill_part L now d apart;
    decode = decode_part L now d apart;
    legacy = legacy_part L now d apart;
  }

-- A reconcile of a stored SimulatorDeployment runs the steps for the resource with its defaults
-- filled in, and a run of these that returns no error leaves every enabled part in place: an object
-- that was missing is created as built, with the resource as its controller, and one that was there
-- is as it was, but for the replicas of a stage's Deployment or of the single one, which are those
-- of the spec. Where neither stage is enabled, the names of the single Deployment and of its
-- Service must not be among the fixed names of the other parts.
pub reconcile_request-Provisioned :
    {C : Client} (L : IsLawful C) (now : ℕ) (namespace name : String)
    (o : Object Kind.simulator_deployment) (s : C.State)
    → C.get s (record { kind = Kind.simulator_deployment; namespace = namespace; name = name })
      ≡ ok o
    → IsApart (simulator_with_defaults namespace name o.body.spec)
    → (reconcile_request C now namespace name s
        ≡ reconcile_simulator C now (simulator_with_defaults namespace name o.body.spec) s)
      × Provisioned C
          (simulator_with_defaults namespace name o.body.spec)
          (reconcile_simulator C now (simulator_with_defaults namespace name o.body.spec))
unfolding reconcile_request fetched_simulator ◌>>=◌
reconcile_request-Provisioned L now namespace name o s there apart =
    (rw there refl, reconcile_simulator-Provisioned L now _ apart)
