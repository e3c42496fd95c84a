-- ===== src/Kube/Client.antt =====
-- The client, the scheme and the REST mapper that both reconcilers hold. They are code of
-- controller-runtime and of the API server: a record of operations, with what is documented of
-- them as the laws below.
pub mod Memory
pub mod Writes
pub mod Healthy
use llm_d_scheduler_sim_oper.Base.{Bool, true, Option, none, some, [], ◌≡◌, ◌≢◌, ◌⊎◌}
use llm_d_scheduler_sim_oper.Kube.Objects.{
  Key, GroupVersionKind, ObjectMeta, IsControlledBy, Status, Body, Object,
}
use llm_d_scheduler_sim_oper.Kube.Calls.{not_found, Result, ok, err, Call}

pub record Client : Type 1 where
  pub State : Type 0
  pub get : State → (k : Key) → Result (Object k.kind)
  pub create : (k : Key) → Body k.kind → Call State (Unit {0})
  pub update : (k : Key) → Body k.kind → Call State (Unit {0})
  pub delete : Key → Call State (Unit {0})
  -- `Status().Update`
  pub update_status : (k : Key) → Status k.kind → Call State (Unit {0})
  -- `controllerutil.CreateOrUpdate`: the object as built, and the callback that sets its fields.
  pub create_or_update :
      (k : Key) → Body k.kind → (Body k.kind → Result (Body k.kind)) → Call State (Unit {0})
  -- `controllerutil.SetControllerReference`: the owner, the object and the object's metadata.
  pub set_controller_reference : Key → Key → ObjectMeta → Result ObjectMeta
  -- `RESTMapper`, which may be nil; a mapper says whether it has a mapping.
  pub rest_mapper : Option (GroupVersionKind → Bool)

module _ (C : Client) where
  -- The object at a key holds what `Q` says of the body.
  pub record Holds (k : Key) (Q : Body k.kind → Type 0) (s : C.State) : Type 0 where
    pub object : Object k.kind
    pub stored : C.get s k ≡ ok object
    pub meets : Q object.body

  -- How `CreateOrUpdate` came to the body that it left: the callback ran on the object as built
  -- if there was none, and else on the one that was there.
  pub record Applied (k : Key) (built : Body k.kind) (f : Body k.kind → Result (Body k.kind))
      (s s' : C.State) : Type 0 where
    pub base : Body k.kind
    pub from :
        ((C.get s k ≡ err not_found) × (base ≡ built))
        ⊎ ((p : Object k.kind) × (C.get s k ≡ ok p) × (base ≡ p.body))
    pub result : Object k.kind
    pub mutated : f base ≡ ok result.body
    pub stored : C.get s' k ≡ ok result

  -- What holds of every cluster, whichever calls fail: a write that reports success is there to
  -- be read, and a write touches no other object.
  pub record IsLawful : Type 0 where
    pub get-create :
        (k : Key) (b : Body k.kind) (s : C.State)
        → (C.create k b s).0 ≡ ok tt
        → (o : Object k.kind) × (C.get (C.create k b s).1 k ≡ ok o) × (o.body ≡ b)
    pub get-create_ne :
        (k j : Key) (b : Body k.kind) (s : C.State) → k ≢ j → C.get (C.create k b s).1 j ≡ C.get s j
    pub get-update :
        (k : Key) (b : Body k.kind) (s : C.State)
        → (C.update k b s).0 ≡ ok tt
        → (o : Object k.kind) × (C.get (C.update k b s).1 k ≡ ok o) × (o.body ≡ b)
    pub get-update_ne :
        (k j : Key) (b : Body k.kind) (s : C.State) → k ≢ j → C.get (C.update k b s).1 j ≡ C.get s j
    pub get-delete :
        (k : Key) (s : C.State)
        → (C.delete k s).0 ≡ ok tt
        → C.get (C.delete k s).1 k ≡ err not_found
    pub delete_missing :
        (k : Key) (s : C.State)
        → (C.delete k s).0 ≡ err not_found
        → C.get (C.delete k s).1 k ≡ err not_found
    -- There is nothing to delete.
    pub delete_gone : (k : Key) (s : C.State) → C.get s k ≡ err not_found → (C.delete k s).1 ≡ s
    pub get-delete_ne : (k j : Key) (s : C.State) → k ≢ j → C.get (C.delete k s).1 j ≡ C.get s j
    -- The status subresource leaves the body alone.
    pub get-update_status :
        (k : Key) (t : Status k.kind) (o : Object k.kind) (s : C.State)
        → C.get s k ≡ ok o
        → (C.update_status k t s).0 ≡ ok tt
        → C.get (C.update_status k t s).1 k ≡ ok (record { body = o.body; status = t })
    pub get-update_status_ne :
        (k j : Key) (t : Status k.kind) (s : C.State)
        → k ≢ j
        → C.get (C.update_status k t s).1 j ≡ C.get s j
    pub get-create_or_update :
        (k : Key) (b : Body k.kind) (f : Body k.kind → Result (Body k.kind)) (s : C.State)
        → (C.create_or_update k b f s).0 ≡ ok tt
        → Applied k b f s (C.create_or_update k b f s).1
    pub get-create_or_update_ne :
        (k j : Key) (b : Body k.kind) (f : Body k.kind → Result (Body k.kind)) (s : C.State)
        → k ≢ j
        → C.get (C.create_or_update k b f s).1 j ≡ C.get s j
    -- Nothing is written where the callback changes nothing.
    pub create_or_update_same :
        (k : Key) (b : Body k.kind) (f : Body k.kind → Result (Body k.kind)) (p : Object k.kind)
        (s : C.State)
        → C.get s k ≡ ok p
        → f p.body ≡ ok p.body
        → C.create_or_update k b f s ≡ (ok tt, s)
    -- A write, whatever it reports, has done what it is asked to or changed nothing.
    pub create_or_nothing :
        (k : Key) (b : Body k.kind) (s : C.State)
        → (C.get (C.create k b s).1 k ≡ C.get s k) ⊎ Holds k (λ b'. b' ≡ b) (C.create k b s).1
    pub update_or_nothing :
        (k : Key) (b : Body k.kind) (s : C.State)
        → (C.get (C.update k b s).1 k ≡ C.get s k) ⊎ Holds k (λ b'. b' ≡ b) (C.update k b s).1
    pub delete_or_nothing :
        (k : Key) (s : C.State)
        → (C.get (C.delete k s).1 k ≡ C.get s k) ⊎ (C.get (C.delete k s).1 k ≡ err not_found)
    pub create_or_update_or_nothing :
        (k : Key) (b : Body k.kind) (f : Body k.kind → Result (Body k.kind)) (s : C.State)
        → (C.get (C.create_or_update k b f s).1 k ≡ C.get s k)
          ⊎ Applied k b f s (C.create_or_update k b f s).1
    -- Owner references may not cross namespaces.
    pub owner_in_namespace :
        (owner k : Key) (m m' : ObjectMeta)
        → C.set_controller_reference owner k m ≡ ok m'
        → owner.namespace ≡ k.namespace
    -- The labels stay, and the owner is there as the controller.
    pub controller_set :
        (owner k : Key) (m m' : ObjectMeta)
        → C.set_controller_reference owner k m ≡ ok m'
        → (m'.labels ≡ m.labels) × (IsControlledBy owner m'.owner_references)
    -- Setting the same owner again changes nothing.
    pub controller_set_again :
        (owner k : Key) (m m' : ObjectMeta)
        → C.set_controller_reference owner k m ≡ ok m'
        → C.set_controller_reference owner k m' ≡ ok m'

-- `SetControllerReference(owner, object, scheme)`, on the object's metadata.
unfoldable pub set_owner : (C : Client) (owner k : Key) → Body k.kind → Result (Body k.kind)
set_owner C owner k b = elim (C.set_controller_reference owner k b.meta) [
  | ok m ↦ ok (record b { meta = m })
  | err e ↦ err e
]

-- `gvkSupported`: with no mapper every kind counts as supported.
unfoldable pub gvk_supported : Client → GroupVersionKind → Bool
gvk_supported C gvk = elim C.rest_mapper [ none ↦ true | some has_mapping ↦ has_mapping gvk ]

abbrev pub empty_meta : ObjectMeta
empty_meta = record { labels = []; owner_references = [] }
