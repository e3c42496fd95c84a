-- ===== src/Kube/Client/Healthy.antt =====
-- A cluster on which no call fails for a reason of its own, and what a run on it returns. The values
-- that are sent are taken to be valid.
use mathlib.Core.Path.{subst}
use llm_d_scheduler_sim_oper.Base.{
  String, Bool, true, false, Option, none, some, [], ◌≡◌, refl, sym, ◌≢◌, if◌then◌else◌,
}
use llm_d_scheduler_sim_oper.Kube.Objects.{Kind, Key, IsFreeFor, ObjectMeta, Status, Body, Object}
use llm_d_scheduler_sim_oper.Kube.Calls.{
  Result, ok, err, not_found, failed, Call, return, lift, ◌>>=◌, branch, on_enabled, when,
  ignore_not_found, forgiven,
}
use llm_d_scheduler_sim_oper.Kube.Triples.{Keeps}
use llm_d_scheduler_sim_oper.Kube.Client.{Client, set_owner}

abbrev pub service_at : String → String → Key
service_at namespace name = record { kind = Kind.service; namespace = namespace; name = name }

-- What the API server lets no update change: the selector of a Deployment, and the role that a binding
-- refers to.
abbrev pub SameFixed : (k : Kind) → Body k → Body k → Type 0
SameFixed Kind.deployment b b' = b'.spec.selector ≡ b.spec.selector
SameFixed Kind.role_binding b b' = b'.spec.role_ref ≡ b.spec.role_ref
SameFixed _ b b' = Unit {0}

module _ (C : Client) where
  pub record IsHealthy : Type 0 where
    -- A read finds the object or reports that there is none.
    pub get_answers : (k : Key) (s : C.State) (m : String) → C.get s k ≢ err (failed m)
    pub create_ok :
        (k : Key) (b : Body k.kind) (s : C.State)
        → C.get s k ≡ err not_found
        → (C.create k b s).0 ≡ ok tt
    pub update_ok :
        (k : Key) (b : Body k.kind) (o : Object k.kind) (s : C.State)
        → C.get s k ≡ ok o
        → SameFixed k.kind o.body b
        → (C.update k b s).0 ≡ ok tt
    pub update_status_ok :
        (k : Key) (t : Status k.kind) (o : Object k.kind) (s : C.State)
        → C.get s k ≡ ok o
        → (C.update_status k t s).0 ≡ ok tt
    pub create_or_update_ok :
        (k : Key) (b : Body k.kind) (f : Body k.kind → Result (Body k.kind)) (s : C.State)
        → (C.get s k ≡ err not_found → (made : Body k.kind) × (f b ≡ ok made))
        → ((o : Object k.kind)
            → C.get s k ≡ ok o
            → (made : Body k.kind) × (f o.body ≡ ok made) × SameFixed k.kind o.body made)
        → (C.create_or_update k b f s).0 ≡ ok tt
    -- A deletion succeeds or reports that there is nothing to delete.
    pub delete_answers : (k : Key) (s : C.State) (m : String) → (C.delete k s).0 ≢ err (failed m)
    -- An object gets an owner of its own namespace, unless another one controls it.
    pub owner_ok :
        (owner k : Key) (m : ObjectMeta)
        → owner.namespace ≡ k.namespace
        → IsFreeFor owner m.owner_references
        → (m' : ObjectMeta) × (C.set_controller_reference owner k m ≡ ok m')
    -- A Service of type "ClusterIP" that is written gets an address, and keeps the one it has.
    pub address_assigned :
        (namespace name : String) (b : Body Kind.service)
        (f : Body Kind.service → Result (Body Kind.service)) (s : C.State) (o : Object Kind.service)
        → (C.create_or_update (service_at namespace name) b f s).0 ≡ ok tt
        → ((p : Object Kind.service)
            → C.get s (service_at namespace name) ≡ ok p
            → p.status.cluster_ip ≢ "")
        → C.get (C.create_or_update (service_at namespace name) b f s).1 (service_at namespace name)
          ≡ ok o
        → o.body.spec.service_type ≡ "ClusterIP"
        → o.status.cluster_ip ≢ ""

-- From a state with `P` the run returns no error.
pub record Returns {S : Type 0} (P : S → Type 0) (m : Call S (Unit {0})) : Type 0 where
  pub at : (s : S) → P s → (m s).0 ≡ ok tt

module _ {S : Type 0} {P : S → Type 0} where
  pub Returns-return : Returns P (return tt)
  unfolding return
  Returns-return = record { at = λ s p. refl }

  pub Returns-seq :
      {m n : Call S (Unit {0})} → Returns P m → Keeps P m → Returns P n → Returns P (m >>= λ _. n)
  unfolding ◌>>=◌
  Returns-seq {m} {n} rm km rn = record {
    at = λ s p.
        let kept = km.at s p in let done = rm.at s p in let (r, s') = m s in go r s' done kept;
  }
    where
      go : (r : Result (Unit {0})) (s' : S) → r ≡ ok tt → P s' → ((lift r >>= λ _. n) s').0 ≡ ok tt
      go (ok tt) s' e p = rn.at s' p
      go (err x) s' e p = cc

  pub Returns-when : (b : Bool) {m : Call S (Unit {0})} → Returns P m → Returns P (when b m)
  unfolding when
  Returns-when true rm = rm
  Returns-when false rm = Returns-return

  pub Returns-enabled :
      {A : Type 0} (o : Option A) (enabled : A → Bool) (m : A → Call S (Unit {0}))
      → ((a : A) → Returns P (m a))
      → Returns P (on_enabled o enabled m)
  unfolding on_enabled
  Returns-enabled none enabled m h = Returns-return
  Returns-enabled (some a) enabled m h = go (enabled a)
    where
      go : (b : Bool) → Returns P (if b then m a else return tt)
      go true = h a
      go false = Returns-return

module _ {S : Type 0} {P : S → Type 0} where
  -- The part is known to be the one that is configured, and enabled.
  pub Returns-on_enabled :
      {A : Type 0} (o : Option A) (enabled : A → Bool) (m : A → Call S (Unit {0}))
      → ((a : A) → o ≡ some a → enabled a ≡ true → Returns P (m a))
      → Returns P (on_enabled o enabled m)
  unfolding on_enabled
  Returns-on_enabled none enabled m h = Returns-return
  Returns-on_enabled (some a) enabled m h = go (enabled a) refl
    where
      go : (b : Bool) → enabled a ≡ b → Returns P (if b then m a else return tt)
      go true e = h a refl e
      go false e = Returns-return

  pub Returns-branch :
      (b : Bool) (m n : Call S (Unit {0})) → b ≡ true → Returns P m → Returns P (branch b m n)
  unfolding branch
  Returns-branch true m n e rm = rm
  Returns-branch false m n e rm = cc

  -- Past a guard that does not hold.
  pub Returns-guard :
      (b : Bool) (m n : Call S (Unit {0})) → b ≡ false → Returns P n → Returns P (branch b m n)
  unfolding branch
  Returns-guard true m n e rn = cc
  Returns-guard false m n e rn = rn

module _ {C : Client} (H : IsHealthy C) where
  pub set_owner_ok :
      (owner k : Key) (b : Body k.kind)
      → owner.namespace ≡ k.namespace
      → b.meta.owner_references ≡ []
      → (b' : Body k.kind) × (set_owner C owner k b ≡ ok b')
  unfolding set_owner
  set_owner_ok owner k b near free =
      let (m, owned) = H.owner_ok owner k b.meta near (rw free tt) in
      (record b { meta = m }, rw (owned, set_owner) refl)

  module _ {P : C.State → Type 0} where
    pub Returns-owned :
        (owner k : Key) (b : Body k.kind) (f : Body k.kind → Call C.State (Unit {0}))
        → owner.namespace ≡ k.namespace
        → b.meta.owner_references ≡ []
        → ((b' : Body k.kind) → Returns P (f b'))
        → Returns P (lift (set_owner C owner k b) >>= f)
    unfolding ◌>>=◌
    Returns-owned owner k b f near free h =
        let (b', owned) = set_owner_ok owner k b near free in
        record { at = λ s p. subst (λ r. ((lift r >>= f) s).0 ≡ ok tt) (sym owned) ((h b').at s p) }

    -- A callback that leaves alone what is fixed, at least of the object that is there.
    pub Returns-mutate_there :
        (k : Key) (b : Body k.kind) (g : Body k.kind → Body k.kind)
        → ((s : C.State)
            → P s
            → (o : Object k.kind) → C.get s k ≡ ok o
            → SameFixed k.kind o.body (g o.body))
        → Returns P (C.create_or_update k b (λ base. ok (g base)))
    Returns-mutate_there k b g same = record {
      at = λ s p.
          H.create_or_update_ok k b _ s (λ x. (g b, refl))
            (λ o there. (g o.body, refl, same s p o there));
    }

    pub Returns-mutate :
        (k : Key) (b : Body k.kind) (g : Body k.kind → Body k.kind)
        → ((base : Body k.kind) → SameFixed k.kind base (g base))
        → Returns P (C.create_or_update k b (λ base. ok (g base)))
    Returns-mutate k b g same = Returns-mutate_there k b g (λ s p o there. same o.body)

    pub Returns-delete : (k : Key) → Returns P (ignore_not_found (C.delete k))
    unfolding ignore_not_found
    Returns-delete k = record { at = λ s p. go (C.delete k s).0 (H.delete_answers k s) }
      where
        go : (r : Result (Unit {0})) → ((m : String) → r ≢ err (failed m)) → forgiven r ≡ ok tt
        go (ok tt) h = refl
        go (err not_found) h = refl
        go (err (failed m)) h = absurd (h m refl)
