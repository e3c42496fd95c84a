-- ===== src/Kube/Triples.antt =====
-- What a call keeps, and what it ensures when it returns no error: one rule for each way to build
-- a call.
use mathlib.Core.Path.{ap, ◌∙◌, sym, subst}
use mathlib.Core.Option.{some-injective}
use llm_d_scheduler_sim_oper.Base.{Bool, true, false, Option, none, some, ◌≡◌, refl, if◌then◌else◌}
use llm_d_scheduler_sim_oper.Kube.Calls.{
  Error, Result, ok, err, Call, return, fail, lift, attempt, read, ◌>>=◌, branch, on_enabled, when,
  ignore_not_found,
}

-- `m` keeps `P`, whether it returns or fails.
pub record Keeps {S A : Type 0} (P : S → Type 0) (m : Call S A) : Type 0 where
  pub at : (s : S) → P s → P (m s).1

-- If `m` returns no error, then `Q` holds.
pub record Ensures {S A : Type 0} (m : Call S A) (Q : S → Type 0) : Type 0 where
  pub at : (s : S) {a : A} → (m s).0 ≡ ok a → Q (m s).1

module _ {S A : Type 0} {P : S → Type 0} where
  pub Keeps-return : (a : A) → Keeps P (return a)
  unfolding return
  Keeps-return a = record { at = λ s h. h }

  pub Keeps-fail : (e : Error) → Keeps P (fail {A = A} e)
  unfolding fail
  Keeps-fail e = record { at = λ s h. h }

  pub Keeps-read : (f : S → Result A) → Keeps P (read f)
  unfolding read
  Keeps-read f = record { at = λ s h. h }

  pub Keeps-lift : (found : Result A) → Keeps P (lift found)
  unfolding lift
  Keeps-lift found = record { at = λ s h. h }

  pub Keeps-attempt : (f : S → Result A) → Keeps P (attempt f)
  unfolding attempt
  Keeps-attempt f = record { at = λ s h. h }

  pub Keeps-branch : (b : Bool) (m n : Call S A) → Keeps P m → Keeps P n → Keeps P (branch b m n)
  unfolding branch
  Keeps-branch true m n km kn = km
  Keeps-branch false m n km kn = kn

module _ {S A B : Type 0} {P : S → Type 0} where
  resume-Keeps :
      (r : Result A) (f : A → Call S B) → ((a : A) → Keeps P (f a)) → Keeps P (lift r >>= f)
  unfolding ◌>>=◌
  resume-Keeps (ok a) f kf = kf a
  resume-Keeps (err e) f kf = record { at = λ s h. h }

  pub Keeps-bind :
      (call : Call S A) (rest : A → Call S B)
      → Keeps P call
      → ((value : A) → Keeps P (rest value))
      → Keeps P (call >>= rest)
  unfolding ◌>>=◌
  Keeps-bind call rest before after = record {
    at = λ here p.
        let kept = before.at here p in
        let (outcome, there) = call here in (resume-Keeps outcome rest after).at there kept;
  }

  pub Keeps-seq : {m : Call S A} {n : Call S B} → Keeps P m → Keeps P n → Keeps P (◌>>=◌ m (λ _. n))
  Keeps-seq {m} {n} km kn = Keeps-bind m (λ _. n) km (λ _. kn)

module _ {S A : Type 0} {P : S → Type 0} where
  pub Keeps-on_enabled :
      (o : Option A) (enabled : A → Bool) (m : A → Call S (Unit {0}))
      → ((a : A) → o ≡ some a → enabled a ≡ true → Keeps P (m a))
      → Keeps P (on_enabled o enabled m)
  unfolding on_enabled
  Keeps-on_enabled none enabled m k = Keeps-return tt
  Keeps-on_enabled (some a) enabled m k = go (enabled a) refl
    where
      go : (b : Bool) → enabled a ≡ b → Keeps P (if b then m a else return tt)
      go true e = k a refl e
      go false e = Keeps-return tt

module _ {S : Type 0} {P : S → Type 0} where
  pub Keeps-when : (b : Bool) (m : Call S (Unit {0})) → Keeps P m → Keeps P (when b m)
  unfolding when
  Keeps-when true m km = km
  Keeps-when false m km = Keeps-return tt

  pub Keeps-ignore_not_found : (m : Call S (Unit {0})) → Keeps P m → Keeps P (ignore_not_found m)
  unfolding ignore_not_found
  Keeps-ignore_not_found m km = record { at = km.at }

pub ruleset keeps_rules = (
  Keeps-return, Keeps-fail, Keeps-lift, Keeps-read, Keeps-attempt, Keeps-branch, Keeps-bind,
  Keeps-when, Keeps-ignore_not_found,
)

module _ {S A B : Type 0} {Q : S → Type 0} where
  -- The first call ensures `Q`, and the rest keeps it.
  pub Ensures-first :
      (m : Call S A) (f : A → Call S B)
      → Ensures m Q
      → ((a : A) → Keeps Q (f a))
      → Ensures (m >>= f) Q
  unfolding ◌>>=◌
  Ensures-first m f em kf = record { at = λ s e. let (r, s') = m s in go r s' (λ a x. em.at s x) e }
    where
      go :
          (r : Result A) (s' : S)
          → ((a : A) → r ≡ ok a → Q s')
          → {b : B} → ((lift r >>= f) s').0 ≡ ok b
          → Q ((lift r >>= f) s').1
      go (ok a) s' q e = (kf a).at s' (q a refl)
      go (err x) s' q e = cc

  -- The rest ensures `Q`, whatever the first call does.
  pub Ensures-later :
      (m : Call S A) (f : A → Call S B) → ((a : A) → Ensures (f a) Q) → Ensures (m >>= f) Q
  unfolding ◌>>=◌
  Ensures-later m f ef = record { at = λ s e. let (r, s') = m s in go r s' e }
    where
      go : (r : Result A) (s' : S) {b : B} → ((lift r >>= f) s').0 ≡ ok b → Q ((lift r >>= f) s').1
      go (ok a) s' e = (ef a).at s' e
      go (err x) s' e = cc

module _ {S A B : Type 0} {Q : S → Type 0} where
  pub first : {m : Call S A} {n : Call S B} → Ensures m Q → Keeps Q n → Ensures (m >>= λ _. n) Q
  first {m} {n} em kn = Ensures-first m (λ _. n) em (λ _. kn)

  pub later : (m : Call S A) {n : Call S B} → Ensures n Q → Ensures (m >>= λ _. n) Q
  later m {n} en = Ensures-later m (λ _. n) (λ _. en)

module _ {S : Type 0} {Q : S → Type 0} where
  pub Ensures-when :
      (b : Bool) (m : Call S (Unit {0})) → b ≡ true → Ensures m Q → Ensures (when b m) Q
  unfolding when
  Ensures-when true m e em = em
  Ensures-when false m e em = cc

  pub Ensures-on_enabled :
      {A : Type 0} (o : Option A) (enabled : A → Bool) (m : A → Call S (Unit {0})) (a : A)
      → o ≡ some a
      → enabled a ≡ true
      → Ensures (m a) Q
      → Ensures (on_enabled o enabled m) Q
  unfolding on_enabled
  Ensures-on_enabled none enabled m a e t em = cc
  Ensures-on_enabled (some b) enabled m a e t em =
      let same = some-injective b a e in
      rw (ap enabled same ∙ t) (subst (λ c. Ensures (m c) Q) (sym same) em)

module _ {S A : Type 0} {Q : S → Type 0} where
  pub Ensures-fail : (e : Error) → Ensures (fail {A = A} e) Q
  unfolding fail
  Ensures-fail e = record { at = λ s x. cc }

  pub Ensures-branch :
      (b : Bool) (m n : Call S A)
      → (b ≡ true → Ensures m Q)
      → (b ≡ false → Ensures n Q)
      → Ensures (branch b m n) Q
  unfolding branch
  Ensures-branch true m n em en = em refl
  Ensures-branch false m n em en = en refl

-- Past a guard its test is known to have failed.
pub branch-fail_ok :
    {S A : Type 0} (Q : S → Type 0) (b : Bool) (e : Error) (n : Call S A) (s : S) {a : A}
    → (b ≡ false → (n s).0 ≡ ok a → Q (n s).1)
    → (branch b (fail e) n s).0 ≡ ok a
    → Q (branch b (fail e) n s).1
unfolding branch fail
branch-fail_ok Q true e n s h x = cc
branch-fail_ok Q false e n s h x = h refl x

module _ {S A B : Type 0} {Q : S → Type 0} where
  -- What a read gave is known in the rest.
  pub Ensures-read :
      (f : S → Result A) (g : A → Call S B)
      → ((s : S) (a : A) → f s ≡ ok a → (b : B) → (g a s).0 ≡ ok b → Q (g a s).1)
      → Ensures (read f >>= g) Q
  unfolding ◌>>=◌
  Ensures-read f g h = record { at = λ s e. go s (f s) refl e }
    where
      go :
          (s : S) (r : Result A)
          → f s ≡ r
          → {b : B} → ((lift r >>= g) s).0 ≡ ok b
          → Q ((lift r >>= g) s).1
      go s (ok a) x {b} e = h s a x b e
      go s (err y) x e = cc
