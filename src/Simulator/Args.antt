-- ===== src/Simulator/Args.antt =====
-- `buildSimulatorArgs` of controllers/simulatordeployment_controller.go, and what a reader of the
-- command line finds in it.
use llm_d_scheduler_sim_oper.Base.{
  ℤ, itoa, is_positive, String, str_eq, Bool, true, false, ◌||◌, Option, none, some, List, [], ◌∷◌,
  ◌++◌, ◌≡◌, if◌then◌else◌,
}

abbrev verbosity_args : Bool → ℤ → List String
verbosity_args true v = "--v" ∷ itoa v ∷ []
verbosity_args false v = []

unfoldable pub build_simulator_args : ℤ → ℤ → List String → List String
build_simulator_args verbosity port extra_args =
    ("--model" ∷ "random" ∷ "--mode" ∷ "random" ∷ [])
    ++ (verbosity_args (is_positive verbosity) verbosity
        ++ (("--port" ∷ itoa port ∷ []) ++ extra_args))

abbrev pub or_else : Option String → Option String → Option String
or_else (some v) other = some v
or_else none other = other

-- The flags that the operator sets, which all take a value.
abbrev pub takes_value : String → Bool
takes_value flag =
    str_eq flag "--model" || str_eq flag "--mode" || str_eq flag "--port" || str_eq flag "--v"

-- How the simulator, whose code is not in this repository, reads its command line: what a flag is set
-- to, if it is. A flag that takes a value, given without "=", takes the next argument, and the last use
-- of a flag counts. Nothing is said of the forms of other arguments, such as "--name=value", flags
-- without a value, and "--".
pub record CommandLine : Type 0 where
  pub value : String → List String → Option String
  pub value-cons :
      (name flag v : String) (rest : List String)
      → takes_value flag ≡ true
      → value name (flag ∷ v ∷ rest)
        ≡ or_else (value name rest) (if str_eq flag name then some v else none)

module _ (L : CommandLine) (name : String) where
  -- What one flag with its value gives.
  abbrev given : String → String → Option String
  given flag v = if str_eq flag name then some v else none
