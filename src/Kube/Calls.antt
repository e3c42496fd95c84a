-- ===== src/Kube/Calls.antt =====
-- Calls that act on a cluster and return a value or a Go `error`. What was written before an error
-- stays written, so the cluster comes back beside the error too.
use llm_d_scheduler_sim_oper.Base.{String, Bool, Option, none, some, if◌then◌else◌}

-- The code asks an error one question, `errors.IsNotFound`.
pub data Error : Type 0 where
  not_found : Error
  failed : String → Error

pub data Result (A : Type 0) : Type 0 where
  ok : A → Result A
  err : Error → Result A

abbrev pub Call : Type 0 → Type 0 → Type 0
Call S A = S → Result A × S

module _ {S A : Type 0} where
  unfoldable pub return : A → Call S A
  return a s = (ok a, s)

  unfoldable pub fail : Error → Call S A
  fail e s = (err e, s)

  -- A computation that reads nothing and writes nothing.
  unfoldable pub lift : Result A → Call S A
  lift r s = (r, s)

  -- A read, with its error as the value: `err := r.Get(...)`.
  unfoldable pub attempt : (S → Result A) → Call S (Result A)
  attempt f s = (ok (f s), s)

  -- A read whose error ends the call.
  unfoldable pub read : (S → Result A) → Call S A
  read f s = (f s, s)

module _ {S A B : Type 0} where
  abbrev resume : Result A → (A → Call S B) → Call S B
  resume (ok a) f s = f a s
  resume (err e) f s = (err e, s)

  infixl 10 ◌>>=◌ ◌>>◌
  -- `if err := m; err != nil { return err }`, then the rest. Opening this opens the calls above.
  unfoldable pub ◌>>=◌ : Call S A → (A → Call S B) → Call S B
  unfolding return fail lift attempt read
  ◌>>=◌ m f s = let (r, s') = m s in resume r f s'

  abbrev pub ◌>>◌ : Call S A → Call S B → Call S B
  m >> n = m >>= λ _. n

module _ {S A : Type 0} where
  -- `if b { m } else { n }`
  unfoldable pub branch : Bool → Call S A → Call S A → Call S A
  branch b m n = if b then m else n

  -- `if p != nil && p.Enabled { m(p) }`
  unfoldable pub on_enabled : Option A → (A → Bool) → (A → Call S (Unit {0})) → Call S (Unit {0})
  on_enabled none enabled m = return tt
  on_enabled (some a) enabled m = if enabled a then m a else return tt

abbrev pub forgiven : {A : Type 0} → Result A → Result (Unit {0})
forgiven (ok a) = ok tt
forgiven (err not_found) = ok tt
forgiven (err e) = err e

module _ {S : Type 0} where
  unfoldable pub when : Bool → Call S (Unit {0}) → Call S (Unit {0})
  when b m = if b then m else return tt

  -- A call that reports a missing object counts as done.
  unfoldable pub ignore_not_found : Call S (Unit {0}) → Call S (Unit {0})
  ignore_not_found m s = let (r, s') = m s in (forgiven r, s')
