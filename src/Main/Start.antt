-- ===== src/Main/Start.antt =====
-- The order in which main.go starts the operator, and where it stops.
use llm_d_scheduler_sim_oper.Base.{
  String, Bool, true, false, ◌||◌, some, List, [], ◌∷◌, ◌++◌, ◌≡◌, refl, ◌∙◌, ap, if◌then◌else◌,
  Bool-cases, inl, inr,
}
use mathlib.Core.List.{append_assoc}
use llm_d_scheduler_sim_oper.Kube.Calls.{Result, ok, err, failed, Call, ◌>>=◌, ◌>>◌}
use llm_d_scheduler_sim_oper.Main.{
  Mapper, Reconciler, simulator, install, Builder, simulator_builder, install_builder,
  ManagerOptions, Manager, Flags, set_up_simulator, set_up_install, start_up, exit_code, main,
}

-- What the operator asks of the manager.
pub data Event : Type 0 where
  made : ManagerOptions → Event
  controller : Builder → Reconciler → Event
  healthz : String → Event
  readyz : String → Event
  started : Event

module _ (fails : Event → Bool) where
  -- A request is noted, and is refused or not.
  abbrev pub note : Event → Call (List Event) (Unit {0})
  note e log = (if fails e then err (failed "") else ok tt, log ++ e ∷ [])

  -- A manager that notes what is asked of it, and refuses what `fails` says.
  abbrev pub noting : Mapper → Manager
  noting mapper = record {
    State = List Event;
    new_manager = λ o. note (made o);
    rest_mapper = mapper;
    complete = λ b r. note (controller b r);
    add_healthz_check = λ n. note (healthz n);
    add_readyz_check = λ n. note (readyz n);
    start = note started;
  }

  -- The events up to the first that is refused, that one included.
  unfoldable pub until_refused : List Event → List Event
  until_refused [] = []
  until_refused (e ∷ es) = let rest = until_refused es in if fails e then e ∷ [] else e ∷ rest

  unfoldable pub any_refused : List Event → Bool
  any_refused [] = false
  any_refused (e ∷ es) = fails e || any_refused es

-- Both controllers and both checks come before the start.
abbrev pub start_events : Mapper → Flags → List Event
start_events mapper f =
    made (record {
      health_probe_bind_address = f.probe_addr;
      leader_election = f.enable_leader_election;
      leader_election_id = "sim-operator.llm-d.io";
    })
    ∷ controller simulator_builder simulator
    ∷ controller install_builder (install (some mapper))
    ∷ healthz "healthz"
    ∷ readyz "readyz"
    ∷ started
    ∷ []

module _ (fails : Event → Bool) where
  abbrev outcome : List Event → Result (Unit {0})
  outcome es = if any_refused fails es then err (failed "") else ok tt

  -- The requests for some events, each after the one before has succeeded.
  chain : Event → List Event → Call (List Event) (Unit {0})
  chain e [] = note fails e
  chain e (e' ∷ es) = note fails e >> chain e' es

  chain_lem :
      (e : Event) (es log : List Event)
      → chain e es log ≡ (outcome (e ∷ es), log ++ until_refused fails (e ∷ es))
  unfolding chain ◌>>=◌ any_refused until_refused
  chain_lem e [] log = elim (Bool-cases (fails e)) [ inl stop ↦ rw stop refl | inr go ↦ rw go refl ]
  chain_lem e (e' ∷ es) log = elim (Bool-cases (fails e)) [
    | inl stop ↦ rw stop refl
    | inr go ↦ rw go (
        chain_lem e' es (log ++ e ∷ [])
        ∙ ap (λ l. (outcome (e' ∷ es), l)) (append_assoc log (e ∷ []) _))
  ]

exit_code-if : (b : Bool) → exit_code (if b then err (failed "") else ok tt) ≡ (if b then 1 else 0)
exit_code-if true = refl
exit_code-if false = refl

-- Whatever is refused, the operator asks for the manager, for the controller of SimulatorDeployments,
-- that of SchedulerInstalls with the manager's mapper, the two checks, and then the start, in this
-- order and up to the first that is refused, and exits with 1 exactly if one was refused.
pub main-until_refused :
    (fails : Event → Bool) (mapper : Mapper) (f : Flags)
    → main (noting fails mapper) f [] ≡ (
      if any_refused fails (start_events mapper f) then 1 else 0,
      until_refused fails (start_events mapper f),
    )
unfolding main start_up set_up_simulator set_up_install chain
main-until_refused fails mapper f =
    ap (λ r. (exit_code r.0, r.1)) (chain_lem fails _ _ [])
    ∙ ap (λ n. (n, until_refused fails (start_events mapper f))) (exit_code-if _)
