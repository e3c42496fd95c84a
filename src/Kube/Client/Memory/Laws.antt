-- ===== src/Kube/Client/Memory/Laws.antt =====
-- The client in memory meets the laws of a client, and those of a healthy cluster.
use mathlib.Core.Path.{subst, ap}
use mathlib.Core.Logic.{inl, inr}
use llm_d_scheduler_sim_oper.Base.{
  String, str_eq_iff, true, Option, none, some, [], ◌∷◌, ◌≡◌, refl, sym, ◌∙◌, ◌≢◌, ◌⊎◌, arith,
}
use llm_d_scheduler_sim_oper.Kube.Objects.{Kind, Key, ObjectMeta, Status, Body, Object}
use llm_d_scheduler_sim_oper.Kube.Calls.{not_found, failed, Result, ok, err}
use llm_d_scheduler_sim_oper.Kube.Client.{IsLawful, Applied}
use llm_d_scheduler_sim_oper.Kube.Client.Writes.{ok_injective}
use llm_d_scheduler_sim_oper.Kube.Client.Healthy.{IsHealthy, SameFixed, service_at}
use llm_d_scheduler_sim_oper.Kube.Client.Memory.{
  Table, write, write_self, write_ne, write_back, status_or, found, base_of, put, store_result,
  store_status, own, memory,
}

module _ (k : Key) (t : Table) where
  abbrev kept : Body k.kind → Object k.kind
  kept b = record { body = b; status = status_or (t k) }

  found-put : (b : Body k.kind) → found (put k b t k) ≡ ok (kept b)
  unfolding put
  found-put b = rw (write_self k (some (kept b)) t)

  found-put_ne : (j : Key) (b : Body k.kind) → k ≢ j → found (put k b t j) ≡ found (t j)
  unfolding put
  found-put_ne j b ne = rw (write_ne k j (some (kept b)) t ne)

  found-store_status :
      (u : Status k.kind) (c : Option (Object k.kind)) (o : Object k.kind)
      → found c ≡ ok o
      → found ((store_status k u c t).1 k) ≡ ok (record { body = o.body; status = u })
  found-store_status u none o e = cc
  found-store_status u (some p) o e =
      rw (write_self k (some (record { body = p.body; status = u })) t) (cc)

  found-store_status_ne :
      (j : Key) (u : Status k.kind) (c : Option (Object k.kind))
      → k ≢ j
      → found ((store_status k u c t).1 j) ≡ found (t j)
  found-store_status_ne j u none ne = refl
  found-store_status_ne j u (some p) ne =
      rw (write_ne k j (some (record { body = p.body; status = u })) t ne)

  found-store_result_ne :
      (j : Key) (r : Result (Body k.kind)) → k ≢ j → found ((store_result k r t).1 j) ≡ found (t j)
  found-store_result_ne j (ok b) ne = found-put_ne j b ne
  found-store_result_ne j (err e) ne = refl

  origin :
      (b : Body k.kind) (c : Option (Object k.kind))
      → t k ≡ c
      → ((found (t k) ≡ err not_found) × (base_of (t k) b ≡ b))
        ⊎ ((p : Object k.kind) × (found (t k) ≡ ok p) × (base_of (t k) b ≡ p.body))
  origin b none e = inl (ap found e, ap (λ (c : Option (Object k.kind)). base_of c b) e)
  origin b (some p) e = inr (p, ap found e, ap (λ (c : Option (Object k.kind)). base_of c b) e)

  store_result-Applied :
      (b : Body k.kind) (f : Body k.kind → Result (Body k.kind)) (r : Result (Body k.kind))
      → f (base_of (t k) b) ≡ r
      → (store_result k r t).0 ≡ ok tt
      → Applied memory k b f t (store_result k r t).1
  store_result-Applied b f (ok b') e h = record {
    base = base_of (t k) b;
    from = origin b (t k) refl;
    result = kept b';
    mutated = e;
    stored = found-put b';
  }
  store_result-Applied b f (err x) e h = cc

  store_result_or_nothing :
      (b : Body k.kind) (f : Body k.kind → Result (Body k.kind)) (r : Result (Body k.kind))
      → f (base_of (t k) b) ≡ r
      → (found ((store_result k r t).1 k) ≡ found (t k))
        ⊎ Applied memory k b f t (store_result k r t).1
  store_result_or_nothing b f (ok b') e = inr (store_result-Applied b f (ok b') e refl)
  store_result_or_nothing b f (err x) e = inl refl

  put_back :
      (o : Object k.kind) (c : Option (Object k.kind))
      → t k ≡ c
      → found c ≡ ok o
      → put k o.body t ≡ t
  unfolding put
  put_back o none e h = cc
  put_back o (some p) e h =
      let same : some (kept o.body) ≡ t k = ground arith in rw same (write_back k t)

  same_result :
      (b : Body k.kind) (f : Body k.kind → Result (Body k.kind)) (o : Object k.kind)
      (c : Option (Object k.kind))
      → t k ≡ c
      → found c ≡ ok o
      → f o.body ≡ ok o.body
      → store_result k (f (base_of (t k) b)) t ≡ (ok tt, t)
  same_result b f o none e h keep = cc
  same_result b f o (some p) e h keep =
      let ran : f (base_of (t k) b) ≡ ok o.body = ground arith in
      rw ran (ap (λ (u : Table). (ok tt, u)) (put_back o (some p) e h))

write_gone :
    (k : Key) (t : Table) (o : Option (Object k.kind))
    → t k ≡ o
    → found o ≡ err not_found
    → write k none t ≡ t
write_gone k t none e gone = subst (λ o. write k o t ≡ t) e (write_back k t)
write_gone k t (some p) e gone = cc

pub memory-IsLawful : IsLawful memory
memory-IsLawful = record {
  get-create = λ k b t _. (kept k t b, found-put k t b, refl);
  get-create_ne = λ k j b t. found-put_ne k t j b;
  get-update = λ k b t _. (kept k t b, found-put k t b, refl);
  get-update_ne = λ k j b t. found-put_ne k t j b;
  get-delete = λ k t _. ap found (write_self k none t);
  delete_missing = λ k t e. cc;
  delete_gone = λ k t gone. write_gone k t (t k) refl gone;
  get-delete_ne = λ k j t ne. ap found (write_ne k j none t ne);
  get-update_status = λ k u o t e _. found-store_status k t u (t k) o e;
  get-update_status_ne = λ k j u t. found-store_status_ne k t j u (t k);
  get-create_or_update = λ k b f t. store_result-Applied k t b f (f (base_of (t k) b)) refl;
  get-create_or_update_ne = λ k j b f t. found-store_result_ne k t j (f (base_of (t k) b));
  create_or_update_same = λ k b f p t. same_result k t b f p (t k) refl;
  create_or_nothing =
      λ k b t. inr (record { object = kept k t b; stored = found-put k t b; meets = refl });
  update_or_nothing =
      λ k b t. inr (record { object = kept k t b; stored = found-put k t b; meets = refl });
  delete_or_nothing = λ k t. inr (ap found (write_self k none t));
  create_or_update_or_nothing =
      λ k b f t. store_result_or_nothing k t b f (f (base_of (t k) b)) refl;
  owner_in_namespace = λ owner k m m' e. ground (arith, str_eq_iff owner.namespace k.namespace);
  controller_set = λ owner k m m' e. ground arith;
  controller_set_again = λ owner k m m' e. ground arith;
}

found_answers : {k : Kind} (o : Option (Object k)) (m : String) → found o ≢ err (failed m)
found_answers none m e = cc
found_answers (some p) m e = cc

status_ok :
    (k : Key) (u : Status k.kind) (c : Option (Object k.kind)) (o : Object k.kind) (t : Table)
    → found c ≡ ok o
    → (store_status k u c t).0 ≡ ok tt
status_ok k u none o t e = cc
status_ok k u (some p) o t e = refl

result_ok :
    (k : Key) (r : Result (Body k.kind)) (made : Body k.kind) (t : Table)
    → r ≡ ok made
    → (store_result k r t).0 ≡ ok tt
result_ok k (ok b) made t e = refl
result_ok k (err x) made t e = cc

made_of :
    (k : Key) (b : Body k.kind) (f : Body k.kind → Result (Body k.kind))
    (c : Option (Object k.kind))
    → (found c ≡ err not_found → (made : Body k.kind) × (f b ≡ ok made))
    → ((o : Object k.kind)
        → found c ≡ ok o
        → (made : Body k.kind) × (f o.body ≡ ok made) × SameFixed k.kind o.body made)
    → (made : Body k.kind) × (f (base_of c b) ≡ ok made)
made_of k b f none new old = new refl
made_of k b f (some o) new old = let (made, done, same) = old o refl in (made, done)

some_address :
    (c : Option (Object Kind.service))
    → ((p : Object Kind.service) → found c ≡ ok p → p.status.cluster_ip ≢ "")
    → (status_or c).cluster_ip ≢ ""
some_address none given x = cc
some_address (some p) given x = given p refl x

address_kept :
    (namespace name : String) (t : Table) (o : Object Kind.service) (r : Result (Body Kind.service))
    → (store_result (service_at namespace name) r t).0 ≡ ok tt
    → ((p : Object Kind.service)
        → found (t (service_at namespace name)) ≡ ok p
        → p.status.cluster_ip ≢ "")
    → found ((store_result (service_at namespace name) r t).1 (service_at namespace name)) ≡ ok o
    → o.body.spec.service_type ≡ "ClusterIP"
    → o.status.cluster_ip ≢ ""
address_kept namespace name t o (ok b) done given there cluster_only =
    subst (λ (p : Object Kind.service). p.status.cluster_ip ≢ "")
      (ok_injective (sym (found-put (service_at namespace name) t b) ∙ there))
      (some_address (t (service_at namespace name)) given)
address_kept namespace name t o (err e) done given there cluster_only = cc

own_ok :
    (owner k : Key) (m : ObjectMeta)
    → owner.namespace ≡ k.namespace
    → (m' : ObjectMeta) × (own owner k m ≡ ok m')
own_ok owner k m near = (
  record {
    labels = m.labels;
    owner_references = (record { owner = owner; controller = true }) ∷ [];
  },
  rw ((str_eq_iff owner.namespace k.namespace).1 near) refl,
)

pub memory-IsHealthy : IsHealthy memory
memory-IsHealthy = record {
  get_answers = λ k t m. found_answers (t k) m;
  create_ok = λ k b t e. refl;
  update_ok = λ k b o t e same. refl;
  update_status_ok = λ k u o t e. status_ok k u (t k) o t e;
  create_or_update_ok = λ k b f t new old.
      result_ok k _ (made_of k b f (t k) new old).0 t (made_of k b f (t k) new old).1;
  address_assigned = λ namespace name b f t o.
      address_kept namespace name t o (f (base_of (t (service_at namespace name)) b));
  delete_answers = λ k t m e. cc;
  owner_ok = λ owner k m near free. own_ok owner k m near;
}
