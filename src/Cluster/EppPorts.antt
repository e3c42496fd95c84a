-- ===== src/Cluster/EppPorts.antt =====
-- The ports of the EPP's container, which both controllers compute from one number:
-- `reconcileEPPDeployment` of controllers/schedulerinstall_controller.go and `reconcileEPP` of
-- controllers/simulatordeployment_controller.go.
use llm_d_scheduler_sim_oper.Base.{
  ℕ, ◌+◌, ◌≤◌, ℤ, pos, negsuc, add_one32, List, [], ◌∷◌, ◌≡◌, ◌≢◌, ◌↔◌, refl, arith, sym, ◌∙◌,
}
use llm_d_scheduler_sim_oper.Api.{EppConfig, SchedulerEppConfig, SimulatorDeployment}
use llm_d_scheduler_sim_oper.Kube.Objects.{ContainerPort}
use llm_d_scheduler_sim_oper.Scheduler.EppContent.{epp_grpc_port, epp_container, tcp_port}
use llm_d_scheduler_sim_oper.Simulator.EppContent.{simulator_epp_container}

-- A port that a socket can have.
abbrev pub InRange : ℤ → Type 0
InRange (pos n) = (1 ≤ n) × (n ≤ 65535)
InRange (negsuc n) = ⊥

abbrev pub Avoids : ℤ → List ContainerPort → Type 0
Avoids p [] = Unit {0}
Avoids p (c ∷ cs) = (c.container_port ≢ p) × Avoids p cs

-- The ports are ports, and no two are the same.
abbrev pub AreUsable : List ContainerPort → Type 0
AreUsable [] = Unit {0}
AreUsable (c ∷ cs) = InRange c.container_port × Avoids c.container_port cs × AreUsable cs

-- The numbers from which all three ports follow: the next one is a port too, and neither is 9090.
abbrev pub Serviceable : ℤ → Type 0
Serviceable (pos n) = (1 ≤ n) × (n ≤ 65534) × (n ≢ 9089) × (n ≢ 9090)
Serviceable (negsuc n) = ⊥

abbrev ports_of : ℤ → List ContainerPort
ports_of p =
    tcp_port "grpc" p ∷ tcp_port "grpc-health" (add_one32 p) ∷ tcp_port "metrics" (pos 9090) ∷ []

add_one_small : (n : ℕ) → n ≤ 65535 → add_one32 (pos n) ≡ pos (n + 1)
unfolding add_one32
add_one_small n h = ground arith

ports_iff : (p : ℤ) → AreUsable (ports_of p) ↔ Serviceable p
ports_iff (pos n) = (
  λ h.
      let e = add_one_small n h.0.1 in
      let next = h.2 in
      let small : InRange (pos (n + 1)) = rw e at (next.0) in
      (
        h.0.0,
        omega (arith, small.1),
        λ x. next.1.0 (rw (x, add_one_small 9089 (omega arith)) refl),
        λ x. h.1.1.0 (rw x refl),
      ),
  λ h.
      let e = add_one_small n (omega arith) in
      (
        (h.0, omega arith),
        (λ x. omega (arith, pos_injective (n + 1) n (sym e ∙ x)), (λ x. h.3 (cc), tt)),
        (
          rw e (omega arith, omega arith),
          (λ x. h.2 (omega (arith, pos_injective 9090 (n + 1) (x ∙ e))), tt),
          ((omega arith, omega arith), tt, tt),
        ),
      ),
)
  where
    pos_injective : (a b : ℕ) → pos a ≡ pos b → a ≡ b
    pos_injective a b e = cc
ports_iff (negsuc n) = (λ h. h.0, λ h. absurd h)

-- The EPP's container has three different ports, all of them between 1 and 65535, exactly if the
-- number that they are computed from lies between 1 and 65534 and is neither 9089 nor 9090: for the
-- SchedulerInstall controller this is the port of the resource, or 9002 where that is 0, and for the
-- SimulatorDeployment controller the port with its default.
pub epp_ports_usable :
    (scheduler : SchedulerEppConfig) (d : SimulatorDeployment) (e : EppConfig)
    → (AreUsable (epp_container scheduler).ports ↔ Serviceable (epp_grpc_port scheduler))
      × (AreUsable (simulator_epp_container d e).ports ↔ Serviceable e.port)
unfolding epp_container simulator_epp_container
epp_ports_usable scheduler d e = (ports_iff (epp_grpc_port scheduler), ports_iff e.port)
