-- ===== src/Kube/Client/Writes.antt =====
-- Each write of a lawful client, as what it keeps of the other objects and what it ensures of its
-- own. A reconcile step is proved from these.
use mathlib.Core.Path.{◌∙◌, ap, subst}
use mathlib.Core.Option.{some-injective}
use llm_d_scheduler_sim_oper.Base.{
  ◌≡◌, ◌≢◌, Bool, true, false, Option, none, some, List, [], ◌∷◌, ◌++◌, if◌then◌else◌,
}
use llm_d_scheduler_sim_oper.Kube.Objects.{Key, Status, Body, Object}
use llm_d_scheduler_sim_oper.Kube.Calls.{Result, ok, Call}
use llm_d_scheduler_sim_oper.Kube.Triples.{Keeps, Ensures}
use llm_d_scheduler_sim_oper.Kube.Client.{Client, Holds, IsLawful}

-- Reading the object at `j` gives `r`.
pub record Reads (C : Client) (j : Key) (r : Result (Object j.kind)) (s : C.State) : Type 0 where
  pub reads : C.get s j ≡ r

pub ok_injective : {A : Type 0} {a b : A} → ok a ≡ ok b → a ≡ b
ok_injective e = cc

-- No key of the list is `j`.
pub data Misses (j : Key) : List Key → Type 0 where
  nil : Misses j []
  cons : {k : Key} {ks : List Key} → k ≢ j → Misses j ks → Misses j (k ∷ ks)

module _ {C : Client} (L : IsLawful C) {j : Key} {r : Result (Object j.kind)} where
  pub Keeps-create : (k : Key) (b : Body k.kind) → k ≢ j → Keeps (Reads C j r) (C.create k b)
  Keeps-create k b ne = record {
    at = λ s h. record { reads = L.get-create_ne k j b s ne ∙ h.reads };
  }

  pub Keeps-update : (k : Key) (b : Body k.kind) → k ≢ j → Keeps (Reads C j r) (C.update k b)
  Keeps-update k b ne = record {
    at = λ s h. record { reads = L.get-update_ne k j b s ne ∙ h.reads };
  }

  pub Keeps-delete : (k : Key) → k ≢ j → Keeps (Reads C j r) (C.delete k)
  Keeps-delete k ne = record { at = λ s h. record { reads = L.get-delete_ne k j s ne ∙ h.reads } }

  pub Keeps-update_status :
      (k : Key) (t : Status k.kind) → k ≢ j → Keeps (Reads C j r) (C.update_status k t)
  Keeps-update_status k t ne = record {
    at = λ s h. record { reads = L.get-update_status_ne k j t s ne ∙ h.reads };
  }

  pub Keeps-create_or_update :
      (k : Key) (b : Body k.kind) (f : Body k.kind → Result (Body k.kind))
      → k ≢ j
      → Keeps (Reads C j r) (C.create_or_update k b f)
  Keeps-create_or_update k b f ne = record {
    at = λ s h. record { reads = L.get-create_or_update_ne k j b f s ne ∙ h.reads };
  }

pub ruleset write_rules =
    (Keeps-create, Keeps-update, Keeps-delete, Keeps-update_status, Keeps-create_or_update)

module _ {C : Client} where
  -- What reads alike at a key holds alike.
  pub Keeps-Holds :
      {A : Type 0} (j : Key) (Q : Body j.kind → Type 0) (m : Call C.State A)
      → ((r : Result (Object j.kind)) → Keeps (Reads C j r) m)
      → Keeps (Holds C j Q) m
  Keeps-Holds j Q m k = record {
    at = λ s h. record {
      object = h.object;
      stored = ((k (ok h.object)).at s (record { reads = h.stored })).reads;
      meets = h.meets;
    };
  }

module _ {C : Client} (L : IsLawful C) where
  -- After `CreateOrUpdate` the object is what the callback made of some body.
  pub Ensures-create_or_update :
      (k : Key) (b : Body k.kind) (f : Body k.kind → Result (Body k.kind))
      (Q : Body k.kind → Type 0)
      → ((base made : Body k.kind) → f base ≡ ok made → Q made)
      → Ensures (C.create_or_update k b f) (Holds C k Q)
  Ensures-create_or_update k b f Q q = record {
    at = λ s e.
        let a = L.get-create_or_update k b f s e in
        record { object = a.result; stored = a.stored; meets = q a.base a.result.body a.mutated };
  }

  -- The same for a callback that cannot fail.
  pub Ensures-mutate :
      (k : Key) (b : Body k.kind) (g : Body k.kind → Body k.kind) (Q : Body k.kind → Type 0)
      → ((base : Body k.kind) → Q (g base))
      → Ensures (C.create_or_update k b (λ base. ok (g base))) (Holds C k Q)
  Ensures-mutate k b g Q q =
      Ensures-create_or_update k b (λ base. ok (g base)) Q
        (λ base made e. subst Q (ok_injective e) (q base))

pub Misses-append : {j : Key} (xs ys : List Key) → Misses j (xs ++ ys) → Misses j xs × Misses j ys
Misses-append [] ys m = (nil, m)
Misses-append (x ∷ xs) ys (cons ne m) = let (l, r) = Misses-append xs ys m in (cons ne l, r)

pub Misses-head : {j k : Key} {ks : List Key} → Misses j (k ∷ ks) → k ≢ j
Misses-head (cons ne m) = ne

-- The keys of a part of a spec, if the part is there and enabled.
abbrev pub enabled_keys : {A : Type 0} → Option A → (A → Bool) → (A → List Key) → List Key
enabled_keys none enabled keys = []
enabled_keys (some a) enabled keys = if enabled a then keys a else []

pub Misses-enabled :
    {A : Type 0} {j : Key} (o : Option A) (enabled : A → Bool) (keys : A → List Key)
    → Misses j (enabled_keys o enabled keys)
    → (a : A) → o ≡ some a
    → enabled a ≡ true
    → Misses j (keys a)
Misses-enabled none enabled keys m a e t = cc
Misses-enabled {j = j} (some b) enabled keys m a e t =
    subst (λ c. Misses j (keys c)) (some-injective b a e)
      (rw (ap enabled (some-injective b a e) ∙ t) at m)

pub enabled_keys-Misses :
    {A : Type 0} {j : Key} (o : Option A) (enabled : A → Bool) (keys : A → List Key)
    → ((a : A) → Misses j (keys a))
    → Misses j (enabled_keys o enabled keys)
enabled_keys-Misses none enabled keys m = nil
enabled_keys-Misses {j = j} (some a) enabled keys m =
    elim (enabled a) as (λ b. Misses j (if b then keys a else [])) [ true ↦ m a | false ↦ nil ]

pub append-Misses : {j : Key} {xs ys : List Key} → Misses j xs → Misses j ys → Misses j (xs ++ ys)
append-Misses nil m = m
append-Misses (cons ne l) m = cons ne (append-Misses l m)

pub kind_ne : {k j : Key} → k.kind ≢ j.kind → k ≢ j
kind_ne ne e = ne (ap (λ (x : Key). x.kind) e)
