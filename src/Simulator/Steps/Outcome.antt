-- ===== src/Simulator/Steps/Outcome.antt =====
-- What each step of the SimulatorDeployment controller makes of its objects.
use llm_d_scheduler_sim_oper.Base.{ℤ, String, Bool}
use llm_d_scheduler_sim_oper.Api.{
  EppConfig, StageConfig, GatewayInstanceConfig, SimulatorDeployment,
}
use llm_d_scheduler_sim_oper.Kube.Objects.{Kind, Body, Object}
use llm_d_scheduler_sim_oper.Kube.Calls.{Result, Call, ◌>>=◌}
use llm_d_scheduler_sim_oper.Kube.Triples.{Keeps-seq}
use llm_d_scheduler_sim_oper.Kube.Client.{Client, IsLawful}
use llm_d_scheduler_sim_oper.Simulator.Defaults.{
  default_epp_config, default_instance, default_stage,
}
use llm_d_scheduler_sim_oper.Simulator.Content.{
  simulator_key, simulator_object_key, legacy_key, legacy_service_key, legacy_deployment,
  legacy_service, stage_key, stage_deployment, stage_service,
}
use llm_d_scheduler_sim_oper.Simulator.EppContent.{
  simulator_epp_key, epp_config_map, epp_deployment, epp_service,
}
use llm_d_scheduler_sim_oper.Simulator.GatewayContent.{
  gateway_config_map, gateway_deployment, gateway_service,
}
use llm_d_scheduler_sim_oper.Simulator.Writes.{scaled}
use llm_d_scheduler_sim_oper.Simulator.Writes.Moves.{Moves, Moves-first, Moves-later}
use llm_d_scheduler_sim_oper.Simulator.Writes.Settled.{
  Settled, create_or-Keeps, create_if_missing-Keeps, scale-Keeps, create_or-Settled,
  create_if_missing-Settled, scale-Changes,
}
use llm_d_scheduler_sim_oper.Simulator.Steps.{
  reconcile_deployment, reconcile_service, write_stage, reconcile_stage, reconcile_epp_config,
  write_epp, reconcile_epp, write_gateway, reconcile_gateway_instance,
}

module _ (d : SimulatorDeployment) where
  -- An object of the resource that is created if it is missing, and never changed.
  abbrev pub Placed : {k : Kind} → Body k → Result (Object k) → Result (Object k) → Type 0
  Placed b = Settled (simulator_key d) b (λ x. x)

  -- A Deployment of the resource that is created if it is missing, and of which only the number of
  -- replicas is ever changed.
  abbrev pub Scaled :
      Body Kind.deployment
      → ℤ
      → Result (Object Kind.deployment)
      → Result (Object Kind.deployment)
      → Type 0
  Scaled b n = Settled (simulator_key d) b (λ x. scaled x n)

module _ (C : Client) (d : SimulatorDeployment) (m : Call C.State (Unit {0})) where
  pub record LegacyMoves : Type 0 where
    pub deployment : Moves C (legacy_key d) (Scaled d (legacy_deployment d) d.spec.replicas) m
    pub service : Moves C (legacy_service_key d) (Placed d (legacy_service d)) m

  pub record StageMoves (stage : String) (c : StageConfig) : Type 0 where
    pub deployment :
        Moves C
          (stage_key d Kind.deployment stage)
          (Scaled d (stage_deployment d stage c) c.replicas)
          m
    pub service : Moves C (stage_key d Kind.service stage) (Placed d (stage_service d stage c)) m

  pub record EppMoves (e : EppConfig) : Type 0 where
    pub config : Moves C (simulator_epp_key d Kind.config_map) (Placed d (epp_config_map d)) m
    pub deployment : Moves C (simulator_epp_key d Kind.deployment) (Placed d (epp_deployment d e)) m
    pub service : Moves C (simulator_epp_key d Kind.service) (Placed d (epp_service d e)) m

  pub record GatewayMoves (name : String) (is_istio : Bool) (g : GatewayInstanceConfig)
      : Type 0 where
    pub config :
        Moves C (simulator_object_key d Kind.config_map name) (Placed d (gateway_config_map d)) m
    pub deployment :
        Moves C
          (simulator_object_key d Kind.deployment name)
          (Placed d (gateway_deployment d name g is_istio))
          m
    pub service :
        Moves C
          (simulator_object_key d Kind.service name)
          (Placed d (gateway_service d g is_istio))
          m

module _ {C : Client} (L : IsLawful C) (d : SimulatorDeployment) where
  pub reconcile_stage-Moves :
      (stage : String) (c : StageConfig)
      → StageMoves C d (reconcile_stage C d stage c) stage (default_stage d c)
  unfolding reconcile_stage write_stage
  reconcile_stage-Moves stage c = record {
    deployment =
        Moves-first (create_or-Settled L _ _ _ _ (scale-Changes L _ _ _))
          (λ r. create_if_missing-Keeps L _ _ _ (λ x. cc));
    service =
        Moves-later
          (λ r. create_or-Keeps L _ _ _ _ (λ x. cc) (λ o. scale-Keeps L _ _ _ o (λ x. cc)))
          (create_if_missing-Settled L _ _ _);
  }

  pub legacy-Moves : LegacyMoves C d (reconcile_deployment C d >>= λ _. reconcile_service C d)
  unfolding reconcile_deployment reconcile_service
  legacy-Moves = record {
    deployment =
        Moves-first (create_or-Settled L _ _ _ _ (scale-Changes L _ _ _))
          (λ r. create_if_missing-Keeps L _ _ _ (λ x. cc));
    service =
        Moves-later
          (λ r. create_or-Keeps L _ _ _ _ (λ x. cc) (λ o. scale-Keeps L _ _ _ o (λ x. cc)))
          (create_if_missing-Settled L _ _ _);
  }

  pub reconcile_epp-Moves :
      (e : EppConfig) → EppMoves C d (reconcile_epp C d e) (default_epp_config e)
  unfolding reconcile_epp reconcile_epp_config write_epp
  reconcile_epp-Moves e = record {
    config = Moves-first (create_if_missing-Settled L _ _ _) (λ r.
        Keeps-seq (create_if_missing-Keeps L _ _ _ (λ x. cc))
          (create_if_missing-Keeps L _ _ _ (λ x. cc)));
    deployment =
        Moves-later (λ r. create_if_missing-Keeps L _ _ _ (λ x. cc))
          (Moves-first (create_if_missing-Settled L _ _ _)
            (λ r. create_if_missing-Keeps L _ _ _ (λ x. cc)));
    service =
        Moves-later (λ r. create_if_missing-Keeps L _ _ _ (λ x. cc))
          (Moves-later (λ r. create_if_missing-Keeps L _ _ _ (λ x. cc))
            (create_if_missing-Settled L _ _ _));
  }

  pub reconcile_gateway_instance-Moves :
      (name : String) (is_istio : Bool) (g : GatewayInstanceConfig)
      → GatewayMoves C d
          (reconcile_gateway_instance C d name is_istio g)
          name
          is_istio
          (default_instance is_istio g)
  unfolding reconcile_gateway_instance write_gateway
  reconcile_gateway_instance-Moves name is_istio g = record {
    config = Moves-first (create_if_missing-Settled L _ _ _) (λ r.
        Keeps-seq (create_if_missing-Keeps L _ _ _ (λ x. cc))
          (create_if_missing-Keeps L _ _ _ (λ x. cc)));
    deployment =
        Moves-later (λ r. create_if_missing-Keeps L _ _ _ (λ x. cc))
          (Moves-first (create_if_missing-Settled L _ _ _)
            (λ r. create_if_missing-Keeps L _ _ _ (λ x. cc)));
    service =
        Moves-later (λ r. create_if_missing-Keeps L _ _ _ (λ x. cc))
          (Moves-later (λ r. create_if_missing-Keeps L _ _ _ (λ x. cc))
            (create_if_missing-Settled L _ _ _));
  }
