-- ===== src/Kube/Leads.antt =====
-- Calls that lead from states of one kind to states of another, where they return no error.
use mathlib.Core.Path.{subst, ap, ◌∙◌}
use mathlib.Core.Option.{some-injective}
use llm_d_scheduler_sim_oper.Base.{Bool, true, Option, none, some, ◌≡◌, refl, sym}
use llm_d_scheduler_sim_oper.Kube.Objects.{Key, Object}
use llm_d_scheduler_sim_oper.Kube.Calls.{Result, ok, err, Call, lift, ◌>>=◌, on_enabled}
use llm_d_scheduler_sim_oper.Kube.Triples.{Keeps}
use llm_d_scheduler_sim_oper.Kube.Client.{Client}
use llm_d_scheduler_sim_oper.Kube.Client.Writes.{Reads}
use llm_d_scheduler_sim_oper.Kube.Client.Healthy.{Returns}

-- From a state with `P` a run that returns no error leads to one with `Q`.
pub record Leads {S : Type 0} (P : S → Type 0) (m : Call S (Unit {0})) (Q : S → Type 0)
    : Type 0 where
  pub at : (s : S) → P s → (m s).0 ≡ ok tt → Q (m s).1

module _ {S : Type 0} {P Q : S → Type 0} where
  pub Leads-seq : {m n : Call S (Unit {0})} → Keeps P m → Leads P n Q → Leads P (m >>= λ _. n) Q
  unfolding ◌>>=◌
  Leads-seq {m} {n} km ln = record {
    at = λ s p e. let kept = km.at s p in let (r, s') = m s in go r s' kept e;
  }
    where
      go :
          (r : Result (Unit {0})) (s' : S)
          → P s'
          → ((lift r >>= λ _. n) s').0 ≡ ok tt
          → Q ((lift r >>= λ _. n) s').1
      go (ok a) s' p e = ln.at s' p e
      go (err x) s' p e = cc

  pub Leads-lift :
      {A : Type 0} (r : Result A) (f : A → Call S (Unit {0}))
      → ((a : A) → Leads P (f a) Q)
      → Leads P (lift r >>= f) Q
  unfolding ◌>>=◌
  Leads-lift (ok a) f h = h a
  Leads-lift (err x) f h = record { at = λ s p e. cc }

  pub Leads-on_enabled :
      {A : Type 0} (o : Option A) (enabled : A → Bool) (m : A → Call S (Unit {0})) (a : A)
      → o ≡ some a
      → enabled a ≡ true
      → Leads P (m a) Q
      → Leads P (on_enabled o enabled m) Q
  unfolding on_enabled
  Leads-on_enabled none enabled m a e t l = cc
  Leads-on_enabled (some b) enabled m a e t l =
      let same = some-injective b a e in
      rw (ap enabled same ∙ t) (subst (λ c. Leads P (m c) Q) (sym same) l)

  -- The rest is run from a state with `Q`.
  pub Returns-lead :
      {m n : Call S (Unit {0})} → Returns P m → Leads P m Q → Returns Q n → Returns P (m >>= λ _. n)
  unfolding ◌>>=◌
  Returns-lead {m} {n} rm lm rn = record {
    at =
        λ s p. let done = rm.at s p in let led = lm.at s p in let (r, s') = m s in go r s' done led;
  }
    where
      go :
          (r : Result (Unit {0})) (s' : S)
          → r ≡ ok tt
          → (r ≡ ok tt → Q s')
          → ((lift r >>= λ _. n) s').0 ≡ ok tt
      go (ok a) s' e q = rn.at s' (q refl)
      go (err x) s' e q = cc

  pub Returns-weaken : {m : Call S (Unit {0})} → ((s : S) → P s → Q s) → Returns Q m → Returns P m
  Returns-weaken h rm = record { at = λ s p. rm.at s (h s p) }

module _ {C : Client} {A : Type 0} where
  -- What is known of the object at one key.
  pub Keeps-reading :
      (k : Key) (Q : Result (Object k.kind) → Type 0) (m : Call C.State A)
      → ((r : Result (Object k.kind)) → Keeps (Reads C k r) m)
      → Keeps (λ s. Q (C.get s k)) m
  Keeps-reading k Q m h = record {
    at = λ s q. subst Q (sym ((h (C.get s k)).at s (record { reads = refl })).reads) q;
  }
