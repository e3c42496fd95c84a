-- ===== src/Simulator/Writes/Moves.antt =====
-- What a run that returns no error makes of the object at one key.
use llm_d_scheduler_sim_oper.Base.{Bool, true, false, Option, none, some, ◌≡◌, refl, sym}
use llm_d_scheduler_sim_oper.Kube.Objects.{Key, Object}
use llm_d_scheduler_sim_oper.Kube.Calls.{Result, ok, err, Call, lift, ◌>>=◌, on_enabled, when}
use llm_d_scheduler_sim_oper.Kube.Triples.{Keeps}
use llm_d_scheduler_sim_oper.Kube.Client.{Client}
use llm_d_scheduler_sim_oper.Kube.Client.Writes.{Reads}
use mathlib.Core.Path.{subst, ap, ◌∙◌}
use mathlib.Core.Option.{some-injective}

-- Reading the object at `k` before and after the run gives two results that `R` relates.
pub record Moves (C : Client) (k : Key)
    (R : Result (Object k.kind) → Result (Object k.kind) → Type 0) (m : Call C.State (Unit {0}))
    : Type 0 where
  pub at : (s : C.State) → (m s).0 ≡ ok tt → R (C.get s k) (C.get (m s).1 k)

module _ {C : Client} {k : Key} {R : Result (Object k.kind) → Result (Object k.kind) → Type 0} where
  -- The first call moves the object, and the rest keeps it.
  pub Moves-first :
      {m n : Call C.State (Unit {0})}
      → Moves C k R m
      → ((r : Result (Object k.kind)) → Keeps (Reads C k r) n)
      → Moves C k R (m >>= λ _. n)
  unfolding ◌>>=◌
  Moves-first {m} {n} mm kn = record {
    at = λ s e. let (r, s') = m s in go s (C.get s k) r s' (mm.at s) e;
  }
    where
      go :
          (s : C.State) (b : Result (Object k.kind)) (r : Result (Unit {0})) (s' : C.State)
          → (r ≡ ok tt → R b (C.get s' k))
          → ((lift r >>= λ _. n) s').0 ≡ ok tt
          → R b (C.get ((lift r >>= λ _. n) s').1 k)
      go s b (ok tt) s' q e =
          subst (R b) (sym ((kn (C.get s' k)).at s' (record { reads = refl })).reads) (q refl)
      go s b (err x) s' q e = cc

  -- The first call keeps the object, and the rest moves it.
  pub Moves-later :
      {m n : Call C.State (Unit {0})}
      → ((r : Result (Object k.kind)) → Keeps (Reads C k r) m)
      → Moves C k R n
      → Moves C k R (m >>= λ _. n)
  unfolding ◌>>=◌
  Moves-later {m} {n} km mn = record {
    at = λ s e.
        let kept = ((km (C.get s k)).at s (record { reads = refl })).reads in
        let (r, s') = m s in go r s' (C.get s k) kept e;
  }
    where
      go :
          (r : Result (Unit {0})) (s' : C.State) (b : Result (Object k.kind))
          → C.get s' k ≡ b
          → ((lift r >>= λ _. n) s').0 ≡ ok tt
          → R b (C.get ((lift r >>= λ _. n) s').1 k)
      go (ok tt) s' b kept e = subst (λ x. R x (C.get (n s').1 k)) kept (mn.at s' e)
      go (err x) s' b kept e = cc

  pub Moves-when :
      {b : Bool} {m : Call C.State (Unit {0})} → b ≡ true → Moves C k R m → Moves C k R (when b m)
  unfolding when
  Moves-when {b = true} e mm = mm
  Moves-when {b = false} e mm = cc

  pub Moves-enabled :
      {A : Type 0} (o : Option A) (enabled : A → Bool) (m : A → Call C.State (Unit {0})) (a : A)
      → o ≡ some a
      → enabled a ≡ true
      → Moves C k R (m a)
      → Moves C k R (on_enabled o enabled m)
  unfolding on_enabled
  Moves-enabled none enabled m a e t mm = cc
  Moves-enabled (some b) enabled m a e t mm =
      let same = some-injective b a e in
      rw (ap enabled same ∙ t) (subst (λ c. Moves C k R (m c)) (sym same) mm)
