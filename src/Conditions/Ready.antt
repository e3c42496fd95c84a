-- ===== src/Conditions/Ready.antt =====
-- The list of conditions before and after `update_conditions`.
use Prim.Native.Nat.{max}
use llm_d_scheduler_sim_oper.Base.{
  ℕ, suc, Option, none, some, List, [], ◌∷◌, ◌≡◌, refl, str_eq, str_eq_iff, true, arith,
  if◌then◌else◌, ◌++◌, ap, Bool-cases, inl, inr,
}
use llm_d_scheduler_sim_oper.Api.{Condition}
use llm_d_scheduler_sim_oper.Conditions.{update_conditions}

-- The first condition of type "Ready", which clients read.
abbrev pub find_ready : List Condition → Option Condition
find_ready [] = none
find_ready (x ∷ xs) = if str_eq x.type_name "Ready" then some x else find_ready xs

-- The conditions of other types, in order.
abbrev pub others : List Condition → List Condition
others [] = []
others (x ∷ xs) = if str_eq x.type_name "Ready" then others xs else x ∷ others xs

abbrev pub count_ready : List Condition → ℕ
count_ready [] = 0
count_ready (x ∷ xs) = if str_eq x.type_name "Ready" then suc (count_ready xs) else count_ready xs

-- The conditions before the first of type "Ready", and those after it.
abbrev pub before_ready : List Condition → List Condition
before_ready [] = []
before_ready (x ∷ xs) = if str_eq x.type_name "Ready" then [] else x ∷ before_ready xs

abbrev pub after_ready : List Condition → List Condition
after_ready [] = []
after_ready (x ∷ xs) = if str_eq x.type_name "Ready" then xs else after_ready xs

module _ (c : Condition) where
  -- The loop by its recursion alone, with no flag.
  update_rec : List Condition → List Condition
  update_rec [] = c ∷ []
  update_rec (x ∷ xs) =
      let rest = update_rec xs in if str_eq x.type_name "Ready" then c ∷ xs else x ∷ rest

  update_conditions-eq : (cs : List Condition) → update_conditions c cs ≡ update_rec cs
  unfolding update_conditions update_rec
  update_conditions-eq [] = refl
  update_conditions-eq (x ∷ xs) = ground (arith, update_conditions-eq xs)

  place-rec : (cs : List Condition) → update_rec cs ≡ before_ready cs ++ c ∷ after_ready cs
  unfolding update_rec
  place-rec [] = refl
  place-rec (x ∷ xs) = elim (Bool-cases (str_eq x.type_name "Ready")) [
    | inl found ↦ rw found refl
    | inr other ↦ rw other (ap (λ r. x ∷ r) (place-rec xs))
  ]

  module _ (ready : str_eq c.type_name "Ready" ≡ true) where
    find-rec : (cs : List Condition) → find_ready (update_rec cs) ≡ some c
    unfolding update_rec
    find-rec [] = ground arith
    find-rec (x ∷ xs) = ground (arith, find-rec xs)

    others-rec : (cs : List Condition) → others (update_rec cs) ≡ others cs
    unfolding update_rec
    others-rec [] = ground arith
    others-rec (x ∷ xs) = ground (arith, others-rec xs)

    count-rec : (cs : List Condition) → count_ready (update_rec cs) ≡ max 1 (count_ready cs)
    unfolding update_rec
    count-rec [] = ground arith
    count-rec (x ∷ xs) = ground (arith, count-rec xs)

-- After `update_conditions` with a condition of type "Ready": it stands where the first of that type
-- stood, or at the end if there was none, with the conditions before and after that place unchanged;
-- it is the one a client finds; the conditions of other types are the same in the same order; and
-- there are as many of type "Ready" as before, or one if there was none.
pub update_conditions_sets :
    (c : Condition) (cs : List Condition)
    → c.type_name ≡ "Ready"
    → (update_conditions c cs ≡ before_ready cs ++ c ∷ after_ready cs)
      × (find_ready (update_conditions c cs) ≡ some c)
      × (others (update_conditions c cs) ≡ others cs)
      × (count_ready (update_conditions c cs) ≡ max 1 (count_ready cs))
update_conditions_sets c cs e =
    let ready = (str_eq_iff c.type_name "Ready").1 e in
    rw (update_conditions-eq c cs)
      (place-rec c cs, find-rec c ready cs, others-rec c ready cs, count-rec c ready cs)
