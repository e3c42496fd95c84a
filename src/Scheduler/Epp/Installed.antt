-- ===== src/Scheduler/Epp/Installed.antt =====
-- What `reconcileSchedulerEPP` has installed when it returns no error.
use mathlib.Core.Path.{subst, ap}
use llm_d_scheduler_sim_oper.Base.{
  String, some, [], ◌∷◌, ◌≡◌, refl, sym, ◌≢◌, lookup, insert_again, Labels, arith, pos, str_eq,
}
use llm_d_scheduler_sim_oper.Api.{SchedulerEppConfig, SchedulerInstall}
use llm_d_scheduler_sim_oper.Kube.Objects.{Kind, Key, Body, Object}
use llm_d_scheduler_sim_oper.Kube.Calls.{Result, Call}
use llm_d_scheduler_sim_oper.Kube.Triples.{Keeps, Ensures, Keeps-seq, Ensures-later, first, later}
use llm_d_scheduler_sim_oper.Kube.Client.{Client, IsLawful, Holds}
use llm_d_scheduler_sim_oper.Kube.Client.Writes.{
  Reads, Keeps-Holds, Keeps-create_or_update, Ensures-mutate, kind_ne,
}
use llm_d_scheduler_sim_oper.Scheduler.Plugins.{plugins_config}
use llm_d_scheduler_sim_oper.Scheduler.EppContent.{
  epp_key, epp_rbac_key, epp_config_key, epp_rules, epp_role_binding, epp_labels, epp_container,
  epp_config_name,
}
use llm_d_scheduler_sim_oper.Scheduler.Epp.Frame.{
  rbac-Keeps, config_map-Keeps, deployment-Keeps, service-Keeps,
}
use llm_d_scheduler_sim_oper.Scheduler.Epp.{
  mutate_role, mutate_role_binding, mutate_config_map, mutate_deployment, mutate_epp_service,
  reconcile_epp_service_account, reconcile_epp_rbac, reconcile_epp_config_map,
  reconcile_epp_deployment, reconcile_epp_service, reconcile_scheduler_epp,
}

-- Every label of the selector is on the pods.
abbrev pub Selects : Labels → Labels → Type 0
Selects selector pods = (k v : String) → lookup k selector ≡ some v → lookup k pods ≡ some v

module _ (i : SchedulerInstall) (e : SchedulerEppConfig) where
  -- The last field of each record says that the callback finds nothing left to change.
  pub record IsEppDeployment (b : Body Kind.deployment) : Type 0 where
    pub replicas : b.spec.replicas ≡ some e.replicas
    pub selector : b.spec.selector ≡ some b.spec.template.labels
    pub named : lookup "app.kubernetes.io/name" b.spec.template.labels ≡ some i.name
    pub account : b.spec.template.service_account_name ≡ e.name
    pub containers : b.spec.template.containers ≡ epp_container e ∷ []
    pub volumes :
        b.spec.template.volumes
        ≡ record { name = "epp-config"; config_map_name = epp_config_name e } ∷ []
    pub settled : mutate_deployment i e b ≡ b

  pub record IsEppService (b : Body Kind.service) : Type 0 where
    pub cluster_only : b.spec.service_type ≡ "ClusterIP"
    pub selects : Selects b.spec.selector (epp_labels i e)
    pub ports :
        b.spec.ports
        ≡ record { name = "grpc"; port = e.port; target_port = pos 9002; protocol = "TCP" } ∷ []
    pub settled : mutate_epp_service i e b ≡ b

  pub record IsEppConfig (b : Body Kind.config_map) : Type 0 where
    pub plugins : lookup "epp-config.yaml" b.spec ≡ some (plugins_config e.config_profile)
    pub settled : mutate_config_map i e b ≡ b

  -- The six objects of the EPP, each with the names by which it refers to the others.
  pub record EppInstalled (C : Client) (s : C.State) : Type 0 where
    pub account : Holds C (epp_key i e Kind.service_account) (λ b. Unit {0}) s
    pub role : Holds C (epp_rbac_key i e Kind.role) (λ b. b.spec ≡ epp_rules) s
    pub binding :
        Holds C (epp_rbac_key i e Kind.role_binding) (λ b. b.spec ≡ epp_role_binding i e) s
    pub config : Holds C (epp_config_key i e) IsEppConfig s
    pub deployment : Holds C (epp_key i e Kind.deployment) IsEppDeployment s
    pub service : Holds C (epp_key i e Kind.service) IsEppService s

  mutate_deployment_lem : (b : Body Kind.deployment) → IsEppDeployment (mutate_deployment i e b)
  unfolding mutate_deployment epp_labels lookup str_eq
  mutate_deployment_lem b = record {
    replicas = refl;
    selector = refl;
    named = refl;
    account = refl;
    containers = refl;
    volumes = refl;
    settled = refl;
  }

  mutate_epp_service_lem : (b : Body Kind.service) → IsEppService (mutate_epp_service i e b)
  unfolding mutate_epp_service epp_labels lookup
  mutate_epp_service_lem b = record {
    cluster_only = refl;
    selects = λ k v h. ground arith;
    ports = refl;
    settled = refl;
  }

  mutate_config_map_lem : (b : Body Kind.config_map) → IsEppConfig (mutate_config_map i e b)
  unfolding mutate_config_map lookup str_eq
  mutate_config_map_lem b = record {
    plugins = refl;
    settled =
        ap
          (λ l. record {
            meta = record (b.meta) { labels = l };
            spec = ("epp-config.yaml", plugins_config e.config_profile) ∷ [];
          })
          (insert_again "app.kubernetes.io/name" i.name b.meta.labels);
  }

module _ {C : Client} (L : IsLawful C) (i : SchedulerInstall) (e : SchedulerEppConfig) where
  account_Ensures :
      Ensures
        (reconcile_scheduler_epp C i e)
        (Holds C (epp_key i e Kind.service_account) (λ b. Unit {0}))
  unfolding reconcile_scheduler_epp reconcile_epp_service_account
  account_Ensures = first (Ensures-later _ _ (λ b. Ensures-mutate L _ b _ _ (λ base. tt))) (
      Keeps-Holds _ _ _ λ r. Keeps-seq (rbac-Keeps L i e (λ x. cc) (λ x. cc)) (
        Keeps-seq (config_map-Keeps L i e (λ x. cc))
          (Keeps-seq (deployment-Keeps L i e (λ x. cc)) (service-Keeps L i e (λ x. cc)))))

  role_Ensures :
      Ensures
        (reconcile_scheduler_epp C i e)
        (Holds C (epp_rbac_key i e Kind.role) (λ b. b.spec ≡ epp_rules))
  unfolding reconcile_scheduler_epp reconcile_epp_rbac mutate_role
  role_Ensures = later _ (
      first
        (first (Ensures-mutate L _ _ _ _ (λ base. refl))
          (Keeps-Holds _ _ _ λ r. Keeps-create_or_update L _ _ _ (λ x. cc)))
        (Keeps-Holds _ _ _ λ r.
          Keeps-seq (config_map-Keeps L i e (λ x. cc))
            (Keeps-seq (deployment-Keeps L i e (λ x. cc)) (service-Keeps L i e (λ x. cc)))))

  binding_Ensures :
      Ensures
        (reconcile_scheduler_epp C i e)
        (Holds C (epp_rbac_key i e Kind.role_binding) (λ b. b.spec ≡ epp_role_binding i e))
  unfolding reconcile_scheduler_epp reconcile_epp_rbac mutate_role_binding
  binding_Ensures = later _ (
      first (later _ (Ensures-mutate L _ _ _ _ (λ base. refl))) (
        Keeps-Holds _ _ _ λ r.
          Keeps-seq (config_map-Keeps L i e (λ x. cc))
            (Keeps-seq (deployment-Keeps L i e (λ x. cc)) (service-Keeps L i e (λ x. cc)))))

  config_Ensures :
      Ensures (reconcile_scheduler_epp C i e) (Holds C (epp_config_key i e) (IsEppConfig i e))
  unfolding reconcile_scheduler_epp reconcile_epp_config_map
  config_Ensures = later _ (
      later _ (
        first (Ensures-later _ _ (λ b. Ensures-mutate L _ b _ _ (mutate_config_map_lem i e))) (
          Keeps-Holds _ _ _
            λ r. Keeps-seq (deployment-Keeps L i e (λ x. cc)) (service-Keeps L i e (λ x. cc)))))

  deployment_Ensures :
      Ensures
        (reconcile_scheduler_epp C i e)
        (Holds C (epp_key i e Kind.deployment) (IsEppDeployment i e))
  unfolding reconcile_scheduler_epp reconcile_epp_deployment
  deployment_Ensures = later _ (
      later _ (
        later _ (
          first (Ensures-later _ _ (λ b. Ensures-mutate L _ b _ _ (mutate_deployment_lem i e)))
            (Keeps-Holds _ _ _ λ r. service-Keeps L i e (λ x. cc)))))

  service_Ensures :
      Ensures
        (reconcile_scheduler_epp C i e)
        (Holds C (epp_key i e Kind.service) (IsEppService i e))
  unfolding reconcile_scheduler_epp reconcile_epp_service
  service_Ensures = later _ (
      later _ (
        later _ (
          later _
            (Ensures-later _ _ (λ b. Ensures-mutate L _ b _ _ (mutate_epp_service_lem i e))))))

  -- A run that returns no error leaves all six objects in place.
  pub reconcile_scheduler_epp-EppInstalled :
      Ensures (reconcile_scheduler_epp C i e) (EppInstalled i e C)
  reconcile_scheduler_epp-EppInstalled = record {
    at = λ s x. record {
      account = account_Ensures.at s x;
      role = role_Ensures.at s x;
      binding = binding_Ensures.at s x;
      config = config_Ensures.at s x;
      deployment = deployment_Ensures.at s x;
      service = service_Ensures.at s x;
    };
  }

-- The kinds of the six objects.
abbrev pub IsEppKind : Kind → Type 0
IsEppKind Kind.deployment = Unit {0}
IsEppKind Kind.service = Unit {0}
IsEppKind Kind.config_map = Unit {0}
IsEppKind Kind.service_account = Unit {0}
IsEppKind Kind.role = Unit {0}
IsEppKind Kind.role_binding = Unit {0}
IsEppKind _ = ⊥

pub ne_epp_kind : {k : Kind} (j : Kind) → IsEppKind j → ¬ IsEppKind k → k ≢ j
ne_epp_kind j h other x = other (subst IsEppKind (sym x) h)

pub epp_kind_ne : {k : Kind} (j : Kind) → IsEppKind j → ¬ IsEppKind k → j ≢ k
epp_kind_ne j h other x = other (subst IsEppKind x h)

module _ {C : Client} (i : SchedulerInstall) (e : SchedulerEppConfig) {p : Key} where
  -- What writes no object of these kinds but another Service keeps the EPP in place.
  pub Keeps-EppInstalled :
      {A : Type 0} (m : Call C.State A)
      → p.kind ≡ Kind.service
      → p ≢ epp_key i e Kind.service
      → ((j : Key) (r : Result (Object j.kind)) → IsEppKind j.kind → p ≢ j → Keeps (Reads C j r) m)
      → Keeps (EppInstalled i e C) m
  Keeps-EppInstalled m service ne k = record {
    at = λ s h. record {
      account = (Keeps-Holds _ _ m (λ r. k _ r tt (kind_ne (λ x. cc)))).at s h.account;
      role = (Keeps-Holds _ _ m (λ r. k _ r tt (kind_ne (λ x. cc)))).at s h.role;
      binding = (Keeps-Holds _ _ m (λ r. k _ r tt (kind_ne (λ x. cc)))).at s h.binding;
      config = (Keeps-Holds _ _ m (λ r. k _ r tt (kind_ne (λ x. cc)))).at s h.config;
      deployment = (Keeps-Holds _ _ m (λ r. k _ r tt (kind_ne (λ x. cc)))).at s h.deployment;
      service = (Keeps-Holds _ _ m (λ r. k _ r tt ne)).at s h.service;
    };
  }
