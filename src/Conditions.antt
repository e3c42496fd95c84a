-- ===== src/Conditions.antt =====
-- The list of status conditions, as both controllers' `updateStatus` changes it.
pub mod Ready
use llm_d_scheduler_sim_oper.Base.{Option, none, some, List, [], ◌∷◌, ◌++◌, str_eq, if◌then◌else◌}
use llm_d_scheduler_sim_oper.Api.{Condition}
use mathlib.Core.Option

-- The loop over the conditions: the first of type "Ready" is replaced, and the loop ends there;
-- `none` if there is none, where the Go code leaves `found` false.
unfoldable pub replace_ready : Condition → List Condition → Option (List Condition)
replace_ready c [] = none
replace_ready c (x ∷ xs) =
    let rest = replace_ready c xs in
    if str_eq x.type_name "Ready" then some (c ∷ xs) else Option.map (λ r. x ∷ r) rest

abbrev or_append : Condition → List Condition → Option (List Condition) → List Condition
or_append c cs none = cs ++ c ∷ []
or_append c cs (some r) = r

unfoldable pub update_conditions : Condition → List Condition → List Condition
unfolding replace_ready
update_conditions c cs = or_append c cs (replace_ready c cs)
