-- ===== src/Kube/Client/Memory.antt =====
-- A client over a table in memory, on which every call goes through.
pub mod Laws
use mathlib.Core.Path.{subst, subst_refl, path_j, fun_ext, ◌∙◌, ap}
use mathlib.Core.Logic.{dite, inl, inr}
use mathlib.Core.HLevel.{hedberg}
use llm_d_scheduler_sim_oper.Base.{
  String, str_eq, str_eq_iff, pos, true, Option, none, some, [], ◌∷◌, ◌≡◌, refl, ◌≢◌, ◌⊎◌, arith,
  if◌then◌else◌, Bool-cases,
}
use llm_d_scheduler_sim_oper.Kube.Objects.{
  Kind, Key-discrete, Key, ObjectMeta, Status, Body, Object,
}
use llm_d_scheduler_sim_oper.Kube.Calls.{not_found, failed, Result, ok, err, Call}
use llm_d_scheduler_sim_oper.Kube.Client.{Client, IsLawful, Applied}
use llm_d_scheduler_sim_oper.Kube.Client.Healthy.{IsHealthy}

abbrev pub Table : Type 0
Table = (k : Key) → Option (Object k.kind)

abbrev pub Cell : Key → Type 0
Cell k = Option (Object k.kind)

pub write : (k : Key) → Option (Object k.kind) → Table → Table
write k o t j = dite (Key-discrete k j) (λ e. subst Cell e o) (λ _. t j)

module _ (k : Key) where
  pub write_self : (o : Option (Object k.kind)) (t : Table) → write k o t k ≡ o
  unfolding write
  write_self o t = elim (Key-discrete k k) as (λ d. dite d (λ e. subst Cell e o) (λ _. t k) ≡ o) [
    | yes e ↦
        ap (λ (p : k ≡ k). subst Cell p o) (hedberg Key-discrete k k e refl)
        ∙ subst_refl Cell {x = k} o
    | no n ↦ absurd (n refl)
  ]

  pub write_ne : (j : Key) (o : Option (Object k.kind)) (t : Table) → k ≢ j → write k o t j ≡ t j
  unfolding write
  write_ne j o t h =
      elim (Key-discrete k j) as (λ d. dite d (λ e. subst Cell e o) (λ _. t j) ≡ t j) [
        | yes e ↦ absurd (h e)
        | no n ↦ refl
      ]

  pub write_back : (t : Table) → write k (t k) t ≡ t
  unfolding write
  write_back t = fun_ext λ j.
      elim (Key-discrete k j) as (λ d. dite d (λ e. subst Cell e (t k)) (λ _. t j) ≡ t j) [
        | yes e ↦ path_j (λ i p. subst Cell p (t k) ≡ t i) (subst_refl Cell {x = k} (t k)) e
        | no n ↦ refl
      ]

abbrev default_status : (k : Kind) → Status k
default_status Kind.deployment = record { replicas = pos 0; ready_replicas = pos 0 }
default_status Kind.service = record { cluster_ip = "10.96.0.10" }
default_status Kind.scheduler_install = record { conditions = [] }
default_status Kind.simulator_deployment = record {
  replicas = pos 0;
  ready_replicas = pos 0;
  endpoints = [];
  gateway_url = "";
  conditions = [];
}
default_status _ = tt

abbrev pub status_or : {k : Kind} → Option (Object k) → Status k
status_or {k} none = default_status k
status_or (some o) = o.status

abbrev pub found : {k : Kind} → Option (Object k) → Result (Object k)
found none = err not_found
found (some o) = ok o

abbrev pub base_of : {k : Kind} → Option (Object k) → Body k → Body k
base_of none b = b
base_of (some o) b = o.body

pub put : (k : Key) → Body k.kind → Table → Table
put k b t = write k (some (record { body = b; status = status_or (t k) })) t

abbrev pub store_result : (k : Key) → Result (Body k.kind) → Call Table (Unit {0})
store_result k (ok b) t = (ok tt, put k b t)
store_result k (err e) t = (err e, t)

abbrev pub store_status : (k : Key) → Status k.kind → Option (Object k.kind) → Call Table (Unit {0})
store_status k u none t = (err not_found, t)
store_status k u (some o) t = (ok tt, write k (some (record { body = o.body; status = u })) t)

abbrev pub own : Key → Key → ObjectMeta → Result ObjectMeta
own owner k m =
    if str_eq owner.namespace k.namespace
    then ok (record {
      labels = m.labels;
      owner_references = (record { owner = owner; controller = true }) ∷ [];
    })
    else err (failed "cross-namespace owner references are disallowed")

abbrev pub memory : Client
memory = record {
  State = Table;
  get = λ t k. found (t k);
  create = λ k b t. (ok tt, put k b t);
  update = λ k b t. (ok tt, put k b t);
  delete = λ k t. (ok tt, write k none t);
  update_status = λ k u t. store_status k u (t k) t;
  create_or_update = λ k b f t. store_result k (f (base_of (t k) b)) t;
  set_controller_reference = own;
  rest_mapper = none;
}

-- A table with nothing in it.
abbrev pub empty : Table
empty k = none

pub stored : (k : Key) → Object k.kind → Table → Table
unfolding write
stored k o t = write k (some o) t

pub get-stored : (k : Key) (o : Object k.kind) (t : Table) → memory.get (stored k o t) k ≡ ok o
unfolding stored
get-stored k o t = ap found (write_self k (some o) t)

pub get-stored_ne :
    (k j : Key) (o : Object k.kind) (t : Table)
    → k ≢ j
    → memory.get (stored k o t) j ≡ memory.get t j
unfolding stored
get-stored_ne k j o t ne = ap found (write_ne k j (some o) t ne)
