-- ===== src/Tests/Flags.antt =====
-- The arguments of a simulator, before a reader of command lines that knows "--name=value", "--name
-- value", one flag without a value, and "--".
use mathlib.Core.Path.{subst}
use text.Mathlib.Text.{starts_with, find?}
use Prim.Native.String.{slice, len}
use llm_d_scheduler_sim_oper.Base.{
  ℕ, ◌+◌, pos, is_positive, String, str_eq, str_eq_iff, true, Option, none, some, List, [], ◌∷◌,
  ◌≡◌, inl, inr, refl, ap, sym, arith, if◌then◌else◌, Bool-cases,
}
use llm_d_scheduler_sim_oper.Simulator.Args.{
  build_simulator_args, or_else, takes_value, CommandLine,
}

data Token : Type 0 where
  -- The name and the value of "--name=value".
  inline : String → String → Token
  switch wants plain stop : Token

abbrev split_at : String → Option ℕ → Token
split_at x none = wants
split_at x (some i) = inline (slice x 0 i) (slice x (i + 1) (len x))

unfoldable classify : String → Token
classify x =
    if str_eq x "--"
    then stop
    else if str_eq x "--fake"
    then switch
    else if starts_with x "--"
    then split_at x (find? x "=")
    else plain

abbrev alone : String → Token → Option String
alone name (inline n v) = if str_eq n name then some v else none
alone name _ = none

abbrev followed : String → String → String → Option String → Option String → Token → Option String
followed name x v next after (inline n w) = or_else next (if str_eq n name then some w else none)
followed name x v next after switch = next
followed name x v next after plain = next
followed name x v next after stop = none
followed name x v next after wants = or_else after (if str_eq x name then some v else none)

unfoldable read : String → List String → Option String
unfolding classify
read name [] = none
read name (x ∷ []) = alone name (classify x)
read name (x ∷ v ∷ rest) =
    let next = read name (v ∷ rest) in
    let after = read name rest in followed name x v next after (classify x)

same_token :
    (flag known : String)
    → classify known ≡ wants
    → str_eq flag known ≡ true
    → classify flag ≡ wants
same_token flag known e same =
    subst (λ f. classify f ≡ wants) (sym ((str_eq_iff flag known).0 same)) e

taken : (flag : String) → takes_value flag ≡ true → classify flag ≡ wants
unfolding classify str_eq
taken flag t = elim (Bool-cases (str_eq flag "--model")) [
  | inl model ↦ same_token flag "--model" refl model
  | inr no_model ↦ elim (Bool-cases (str_eq flag "--mode")) [
    | inl mode ↦ same_token flag "--mode" refl mode
    | inr no_mode ↦ elim (Bool-cases (str_eq flag "--port")) [
      | inl port ↦ same_token flag "--port" refl port
      | inr no_port ↦ same_token flag "--v" refl (ground arith)
    ]
  ]
]

read-cons :
    (name flag v : String) (rest : List String)
    → takes_value flag ≡ true
    → read name (flag ∷ v ∷ rest)
      ≡ or_else (read name rest) (if str_eq flag name then some v else none)
unfolding read
read-cons name flag v rest t = ap (followed name flag v _ (read name rest)) (taken flag t)

abbrev reader : CommandLine
reader = record { value = read; value-cons = read-cons }

-- A port that the extra arguments set in one word, after a flag without a value.
abbrev extra : List String
extra = "--fake" ∷ "--port=9000" ∷ "--mode" ∷ "echo" ∷ []

port_read : read "--port" (build_simulator_args (pos 5) (pos 8200) extra) ≡ some "9000"
unfolding read build_simulator_args str_eq is_positive
port_read = refl

mode_read : read "--mode" (build_simulator_args (pos 5) (pos 8200) extra) ≡ some "echo"
unfolding read build_simulator_args str_eq is_positive
mode_read = refl
