-- ===== src/Kube/Failures.antt =====
-- What holds when a call returns an error.
use llm_d_scheduler_sim_oper.Base.{Bool, true, false, ◌≡◌}
use llm_d_scheduler_sim_oper.Kube.Calls.{Error, Result, ok, err, Call, fail, lift, ◌>>=◌, branch}
use llm_d_scheduler_sim_oper.Kube.Triples.{Keeps}

-- If `m` returns an error, then it has kept `P`.
pub record KeepsOnError {S A : Type 0} (P : S → Type 0) (m : Call S A) : Type 0 where
  pub at : (s : S) (e : Error) → P s → (m s).0 ≡ err e → P (m s).1

module _ {S A : Type 0} {P : S → Type 0} where
  pub KeepsOnError-Keeps : {m : Call S A} → Keeps P m → KeepsOnError P m
  KeepsOnError-Keeps km = record { at = λ s e p x. km.at s p }

  -- Only the last call may write what `P` speaks of, and it fails before it does.
  pub KeepsOnError-seq :
      {m : Call S (Unit {0})} {n : Call S A}
      → Keeps P m
      → KeepsOnError P n
      → KeepsOnError P (m >>= λ _. n)
  unfolding ◌>>=◌
  KeepsOnError-seq {m} {n} km kn = record {
    at = λ s e p x. let kept = km.at s p in let (r, s') = m s in go r s' e kept x;
  }
    where
      go :
          (r : Result (Unit {0})) (s' : S) (e : Error)
          → P s'
          → ((lift r >>= λ _. n) s').0 ≡ err e
          → P ((lift r >>= λ _. n) s').1
      go (ok a) s' e p x = kn.at s' e p x
      go (err y) s' e p x = p

  pub KeepsOnError-guard :
      (b : Bool) (y : Error) {n : Call S A}
      → KeepsOnError P n
      → KeepsOnError P (branch b (fail y) n)
  unfolding branch fail
  KeepsOnError-guard true y kn = record { at = λ s e p x. p }
  KeepsOnError-guard false y kn = kn
