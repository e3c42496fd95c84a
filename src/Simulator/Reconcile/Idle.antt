-- ===== src/Simulator/Reconcile/Idle.antt =====
-- The reconcile after a successful one.
use mathlib.Core.Path.{subst, ap, ◌∙◌}
use llm_d_scheduler_sim_oper.Base.{
  ℕ, ℤ, int_eq_iff, String, Bool, some, [], ◌≡◌, refl, sym, inl, inr,
}
use llm_d_scheduler_sim_oper.Api.{
  StageConfig, EppConfig, GatewayInstanceConfig, SimulatorDeployment,
}
use llm_d_scheduler_sim_oper.Kube.Objects.{Kind, Key, Body, Object}
use llm_d_scheduler_sim_oper.Kube.Calls.{Result, ok, Call, return, lift, attempt, ◌>>=◌, branch}
use llm_d_scheduler_sim_oper.Kube.Client.{Client, IsLawful}
use llm_d_scheduler_sim_oper.Kube.Client.Healthy.{IsHealthy, set_owner_ok}
use llm_d_scheduler_sim_oper.Kube.Rests.{Rests, Rests-return, Rests-seq, Rests-when, Rests-enabled}
use llm_d_scheduler_sim_oper.Simulator.Defaults.{
  default_epp_config, default_instance, default_stage,
}
use llm_d_scheduler_sim_oper.Simulator.Content.{
  legacy_deployment, legacy_service, stage_deployment, stage_service,
}
use llm_d_scheduler_sim_oper.Simulator.EppContent.{epp_config_map, epp_deployment, epp_service}
use llm_d_scheduler_sim_oper.Simulator.GatewayContent.{
  gateway_config_map, gateway_deployment, gateway_service,
}
use llm_d_scheduler_sim_oper.Simulator.Writes.{create_or, create_if_missing, settle, scale, scaled}
use llm_d_scheduler_sim_oper.Simulator.Writes.Settled.{Settled}
use llm_d_scheduler_sim_oper.Simulator.Steps.{
  reconcile_deployment, reconcile_service, write_stage, reconcile_stage, reconcile_epp_config,
  write_epp, reconcile_epp, write_gateway, reconcile_gateway_instance, reconcile_inference_gateways,
}
use llm_d_scheduler_sim_oper.Simulator.Steps.Outcome.{
  LegacyMoves, StageMoves, EppMoves, GatewayMoves,
}
use llm_d_scheduler_sim_oper.Simulator.Reconcile.{
  is_legacy, legacy_step, provision, reconcile_simulator,
}
use llm_d_scheduler_sim_oper.Simulator.Reconcile.Provisioned.{IsApart, Provisioned}
use llm_d_scheduler_sim_oper.Simulator.Reconcile.Success.{reconcile_simulator-Provisioned}

scale_same :
    (C : Client) (namespace name : String) (n : ℤ) (o : Object Kind.deployment) (s : C.State)
    → o.body.spec.replicas ≡ some n
    → scale C namespace name n o s ≡ (ok tt, s)
unfolding scale branch return
scale_same C namespace name n o s e = rw (e, (int_eq_iff n n).1 refl) refl

Settled-replicas :
    (owner : Key) (b : Body Kind.deployment) (n : ℤ)
    (before after : Result (Object Kind.deployment))
    → b.spec.replicas ≡ some n
    → (t : Settled owner b (λ x. scaled x n) before after) → t.object.body.spec.replicas ≡ some n
Settled-replicas owner b n before after built t = elim t.how [
  | inl (missing, made) ↦ ap (λ x. x.replicas) made.spec ∙ built
  | inr (p, there, changed) ↦ ap (λ (x : Body Kind.deployment). x.spec.replicas) changed
]

module _ {C : Client} (H : IsHealthy C) {s : C.State} where
  create_or-Rests :
      (owner k : Key) (b : Body k.kind) (f : Object k.kind → Call C.State (Unit {0}))
      (o : Object k.kind)
      → owner.namespace ≡ k.namespace
      → b.meta.owner_references ≡ []
      → C.get s k ≡ ok o
      → f o s ≡ (ok tt, s)
      → Rests (create_or C owner k b f) s
  unfolding create_or settle ◌>>=◌
  create_or-Rests owner k b f o near free there same =
      let (b', owned) = set_owner_ok H owner k b near free in
      record {
        rests =
            subst
              (λ r.
                (lift r >>= λ b'. attempt (λ s. C.get s k) >>= λ found. settle C k b' f found) s
                ≡ (ok tt, s))
              (sym owned) (subst (λ r. settle C k b' f r s ≡ (ok tt, s)) (sym there) same);
      }

  missing-Rests :
      (owner k : Key) (b : Body k.kind) {before : Result (Object k.kind)}
      → owner.namespace ≡ k.namespace
      → b.meta.owner_references ≡ []
      → Settled owner b (λ x. x) before (C.get s k)
      → Rests (create_if_missing C owner k b) s
  unfolding create_if_missing return
  missing-Rests owner k b near free t =
      create_or-Rests owner k b (λ o. return tt) t.object near free t.stored refl

  scaled-Rests :
      (owner : Key) (namespace name : String) (b : Body Kind.deployment) (n : ℤ)
      {before : Result (Object Kind.deployment)}
      → owner.namespace ≡ namespace
      → b.meta.owner_references ≡ []
      → b.spec.replicas ≡ some n
      → Settled owner b
          (λ x. scaled x n)
          before
          (C.get s (record { kind = Kind.deployment; namespace = namespace; name = name }))
      → Rests
          (create_or C owner
            (record { kind = Kind.deployment; namespace = namespace; name = name })
            b
            (scale C namespace name n))
          s
  scaled-Rests owner namespace name b n near free built t =
      create_or-Rests owner _ b _ t.object near free t.stored
        (scale_same C namespace name n t.object s (Settled-replicas owner b n _ _ built t))

-- `m` is a run that returned no error, and `n` is run after it.
module _ {C : Client} (H : IsHealthy C) (now : ℕ) (d : SimulatorDeployment)
    (m : Call C.State (Unit {0})) (s : C.State) (done : (m s).0 ≡ ok tt) where
  stage-Rests :
      (stage : String) (c : StageConfig)
      → StageMoves C d m stage (default_stage d c)
      → Rests (reconcile_stage C d stage c) (m s).1
  unfolding reconcile_stage write_stage stage_deployment stage_service
  stage-Rests stage c moved =
      Rests-seq (scaled-Rests H _ _ _ _ _ refl refl refl (moved.deployment.at s done))
        (missing-Rests H _ _ _ refl refl (moved.service.at s done))

  legacy-Rests : LegacyMoves C d m → Rests (legacy_step C now d) (m s).1
  unfolding legacy_step reconcile_deployment reconcile_service legacy_deployment legacy_service
  legacy-Rests moved =
      Rests-seq (scaled-Rests H _ _ _ _ _ refl refl refl (moved.deployment.at s done))
        (missing-Rests H _ _ _ refl refl (moved.service.at s done))

  epp-Rests :
      (e : EppConfig) → EppMoves C d m (default_epp_config e) → Rests (reconcile_epp C d e) (m s).1
  unfolding reconcile_epp reconcile_epp_config write_epp epp_config_map epp_deployment epp_service
  epp-Rests e moved = Rests-seq (missing-Rests H _ _ _ refl refl (moved.config.at s done)) (
      Rests-seq (missing-Rests H _ _ _ refl refl (moved.deployment.at s done))
        (missing-Rests H _ _ _ refl refl (moved.service.at s done)))

  gateway-Rests :
      (name : String) (is_istio : Bool) (g : GatewayInstanceConfig)
      → GatewayMoves C d m name is_istio (default_instance is_istio g)
      → Rests (reconcile_gateway_instance C d name is_istio g) (m s).1
  unfolding reconcile_gateway_instance write_gateway gateway_config_map gateway_deployment
      gateway_service
  gateway-Rests name is_istio g moved =
      Rests-seq (missing-Rests H _ _ _ refl refl (moved.config.at s done)) (
        Rests-seq (missing-Rests H _ _ _ refl refl (moved.deployment.at s done))
          (missing-Rests H _ _ _ refl refl (moved.service.at s done)))

  provision-Rests : Provisioned C d m → Rests (provision C now d) (m s).1
  unfolding provision reconcile_inference_gateways
  provision-Rests p = Rests-seq (Rests-enabled d.spec.epp _ _ λ e on. epp-Rests e (p.epp e on)) (
      Rests-seq
        (Rests-enabled d.spec.inference_gateway _ _ λ g on.
          Rests-seq
            (Rests-enabled g.standard _ _ λ x on'. gateway-Rests _ _ x (p.standard g x on on'))
            (Rests-enabled g.istio _ _ λ x on'. gateway-Rests _ _ x (p.istio g x on on')))
        (Rests-seq (Rests-enabled d.spec.prefill _ _ λ c on. stage-Rests _ c (p.prefill c on)) (
          Rests-seq (Rests-enabled d.spec.decode _ _ λ c on. stage-Rests _ c (p.decode c on)) (
            Rests-seq (Rests-when (is_legacy d) λ on. legacy-Rests (p.legacy on))
              (Rests-enabled d.spec.load_balancing _ _ (λ b on. Rests-return))))))

-- On a healthy cluster, after a reconcile of a SimulatorDeployment that returned no error, the next
-- one for the same spec writes nothing before it comes to the status. Where neither stage is
-- enabled, the names of the single Deployment and of its Service must not be among the fixed names
-- of the other parts.
pub provision_idle :
    {C : Client} (H : IsHealthy C) (L : IsLawful C) (now later_on : ℕ) (d : SimulatorDeployment)
    (s : C.State)
    → IsApart d
    → (reconcile_simulator C now d s).0 ≡ ok tt
    → provision C later_on d (reconcile_simulator C now d s).1
      ≡ (ok tt, (reconcile_simulator C now d s).1)
provision_idle {C} H L now later_on d s apart done =
    (provision-Rests H later_on d (reconcile_simulator C now d) s done
      (reconcile_simulator-Provisioned L now d apart)).rests
