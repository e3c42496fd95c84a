-- ===== src/Kube/Rests.antt =====
-- Calls that return no error and leave the cluster as it is.
use mathlib.Core.Path.{subst, ap}
use llm_d_scheduler_sim_oper.Base.{
  Bool, true, false, Option, none, some, String, [], ◌≡◌, ◌≢◌, refl, sym, if◌then◌else◌,
}
use llm_d_scheduler_sim_oper.Kube.Objects.{Key, Body}
use llm_d_scheduler_sim_oper.Kube.Calls.{
  Result, ok, err, not_found, failed, Call, return, lift, read, ◌>>=◌, branch, on_enabled, when,
  ignore_not_found, forgiven,
}
use llm_d_scheduler_sim_oper.Kube.Client.{Client, IsLawful, Holds, set_owner}
use llm_d_scheduler_sim_oper.Kube.Client.Healthy.{IsHealthy, set_owner_ok}

-- The call returns no error and leaves the cluster as it is.
pub record Rests {S : Type 0} (m : Call S (Unit {0})) (s : S) : Type 0 where
  pub rests : m s ≡ (ok tt, s)

module _ {S : Type 0} {s : S} where
  pub Rests-return : Rests (return tt) s
  unfolding return
  Rests-return = record { rests = refl }

  pub Rests-seq : {m n : Call S (Unit {0})} → Rests m s → Rests n s → Rests (m >>= λ _. n) s
  unfolding ◌>>=◌
  Rests-seq rm rn = record { rests = rw (rm.rests) (rn.rests) }

  -- The rest runs as if nothing had gone before.
  pub run_after-Rests :
      {m : Call S (Unit {0})} (n : Call S (Unit {0})) → Rests m s → (m >>= λ _. n) s ≡ n s
  unfolding ◌>>=◌
  run_after-Rests n rm = rw (rm.rests) refl

  pub Rests-when : (b : Bool) {m : Call S (Unit {0})} → (b ≡ true → Rests m s) → Rests (when b m) s
  unfolding when
  Rests-when true h = h refl
  Rests-when false h = Rests-return

  pub Rests-enabled :
      {A : Type 0} (o : Option A) (enabled : A → Bool) (m : A → Call S (Unit {0}))
      → ((a : A) → (o ≡ some a) × (enabled a ≡ true) → Rests (m a) s)
      → Rests (on_enabled o enabled m) s
  unfolding on_enabled
  Rests-enabled none enabled m h = Rests-return
  Rests-enabled (some a) enabled m h = go (enabled a) refl
    where
      go : (b : Bool) → enabled a ≡ b → Rests (if b then m a else return tt) s
      go true e = h a (refl, e)
      go false e = Rests-return

  -- The branch that is taken.
  pub Rests-branch :
      (b : Bool) (m n : Call S (Unit {0})) → b ≡ true → Rests m s → Rests (branch b m n) s
  unfolding branch
  Rests-branch true m n e rm = rm
  Rests-branch false m n e rm = cc

  pub Rests-guard :
      (b : Bool) (m n : Call S (Unit {0})) → b ≡ false → Rests n s → Rests (branch b m n) s
  unfolding branch
  Rests-guard true m n e rn = cc
  Rests-guard false m n e rn = rn

  -- What a read gives is passed on.
  pub Rests-read :
      {A : Type 0} (f : S → Result A) (g : A → Call S (Unit {0})) (a : A)
      → f s ≡ ok a
      → Rests (g a) s
      → Rests (read f >>= g) s
  unfolding ◌>>=◌
  Rests-read f g a e rg = record {
    rests = subst (λ r. (lift r >>= g) s ≡ (ok tt, s)) (sym e) rg.rests;
  }

module _ {C : Client} (L : IsLawful C) {s : C.State} where
  -- `CreateOrUpdate` where the callback finds nothing to change.
  pub Rests-mutate :
      (k : Key) (b : Body k.kind) (g : Body k.kind → Body k.kind) (Q : Body k.kind → Type 0)
      → ((base : Body k.kind) → Q base → g base ≡ base)
      → Holds C k Q s
      → Rests (C.create_or_update k b (λ base. ok (g base))) s
  Rests-mutate k b g Q same h = record {
    rests =
        L.create_or_update_same k b (λ base. ok (g base)) h.object s h.stored
          (ap ok (same h.object.body h.meets));
  }

module _ {C : Client} (H : IsHealthy C) {s : C.State} where
  pub Rests-owned :
      (owner k : Key) (b : Body k.kind) (f : Body k.kind → Call C.State (Unit {0}))
      → owner.namespace ≡ k.namespace
      → b.meta.owner_references ≡ []
      → ((b' : Body k.kind) → Rests (f b') s)
      → Rests (lift (set_owner C owner k b) >>= f) s
  unfolding ◌>>=◌
  Rests-owned owner k b f near free h =
      let (b', owned) = set_owner_ok H owner k b near free in
      record { rests = subst (λ r. (lift r >>= f) s ≡ (ok tt, s)) (sym owned) ((h b').rests) }

  -- Deleting what is not there.
  pub Rests-delete :
      (L : IsLawful C) (k : Key)
      → C.get s k ≡ err not_found
      → Rests (ignore_not_found (C.delete k)) s
  unfolding ignore_not_found
  Rests-delete L k gone = record {
    rests = go (C.delete k s).0 (C.delete k s).1 (L.delete_gone k s gone) (H.delete_answers k s);
  }
    where
      go :
          (r : Result (Unit {0})) (t : C.State)
          → t ≡ s
          → ((m : String) → r ≢ err (failed m))
          → ◌≡◌ {A = Result (Unit {0}) × C.State} (forgiven r, t) (ok tt, s)
      go (ok u) t e h = ap (λ t. (ok tt, t)) e
      go (err not_found) t e h = ap (λ t. (ok tt, t)) e
      go (err (failed m)) t e h = absurd (h m refl)
