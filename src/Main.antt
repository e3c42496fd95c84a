-- ===== src/Main.antt =====
-- main.go, and `SetupWithManager` of both controllers. The manager of controller-runtime is a record
-- of operations. The flags are taken as `flag.Parse` leaves them.
pub mod Start
pub mod Watches
use llm_d_scheduler_sim_oper.Base.{ℕ, String, Bool, false, Option, none, some, List, [], ◌∷◌}
use llm_d_scheduler_sim_oper.Kube.Objects.{Kind, GroupVersionKind}
use llm_d_scheduler_sim_oper.Kube.Calls.{Result, ok, err, Call, ◌>>=◌, ◌>>◌}

-- Whether a mapper has a mapping for a kind.
abbrev pub Mapper : Type 0
Mapper = GroupVersionKind → Bool

-- A reconciler, with the mapper that it holds.
pub data Reconciler : Type 0 where
  simulator : Reconciler
  install : Option Mapper → Reconciler

-- `ctrl.NewControllerManagedBy(mgr).For(...).Owns(...)`
pub record Builder : Type 0 where
  pub reconciled : Kind
  pub owns : List Kind

-- `ctrl.Options`
pub record ManagerOptions : Type 0 where
  pub health_probe_bind_address : String
  pub leader_election : Bool
  pub leader_election_id : String

pub record Manager : Type 1 where
  pub State : Type 0
  pub new_manager : ManagerOptions → Call State (Unit {0})
  pub rest_mapper : Mapper
  -- `Complete`
  pub complete : Builder → Reconciler → Call State (Unit {0})
  pub add_healthz_check : String → Call State (Unit {0})
  pub add_readyz_check : String → Call State (Unit {0})
  pub start : Call State (Unit {0})

pub record Flags : Type 0 where
  pub metrics_addr : String
  pub enable_leader_election : Bool
  pub probe_addr : String

-- With no flag on the command line.
abbrev pub default_flags : Flags
default_flags = record {
  metrics_addr = ":8080";
  enable_leader_election = false;
  probe_addr = ":8081";
}

abbrev pub simulator_builder : Builder
simulator_builder = record {
  reconciled = Kind.simulator_deployment;
  owns = Kind.deployment ∷ Kind.service ∷ [];
}

abbrev pub install_builder : Builder
install_builder = record {
  reconciled = Kind.scheduler_install;
  owns = Kind.deployment ∷ Kind.service ∷ Kind.config_map ∷ Kind.service_account ∷ [];
}

-- `if r.RESTMapper == nil { r.RESTMapper = mgr.GetRESTMapper() }`
abbrev pub mapper_or : Option Mapper → Mapper → Mapper
mapper_or none m = m
mapper_or (some own) m = own

module _ (M : Manager) where
  unfoldable pub set_up_simulator : Call M.State (Unit {0})
  set_up_simulator = M.complete simulator_builder simulator

  unfoldable pub set_up_install : Option Mapper → Call M.State (Unit {0})
  set_up_install own = M.complete install_builder (install (some (mapper_or own M.rest_mapper)))

  -- The body of `main`, in which the first error ends the process.
  unfoldable pub start_up : Flags → Call M.State (Unit {0})
  unfolding set_up_simulator set_up_install
  start_up f = do
    M.new_manager (record {
      health_probe_bind_address = f.probe_addr;
      leader_election = f.enable_leader_election;
      leader_election_id = "sim-operator.llm-d.io";
    })
    set_up_simulator
    set_up_install none
    M.add_healthz_check "healthz"
    M.add_readyz_check "readyz"
    M.start

-- `os.Exit(1)` on an error.
abbrev exit_code : Result (Unit {0}) → ℕ
exit_code (ok u) = 0
exit_code (err e) = 1

unfoldable pub main : (M : Manager) → Flags → M.State → ℕ × M.State
unfolding start_up
main M f s = let (r, s') = start_up M f s in (exit_code r, s')
