-- ===== src/Scheduler/Epp.antt =====
-- `reconcileSchedulerEPP` of controllers/schedulerinstall_controller.go and the five functions that
-- it calls. `i` is the resource with its defaults set, and `e` its `Spec.EPP`.
pub mod Frame
pub mod Installed
pub mod Ports
use llm_d_scheduler_sim_oper.Base.{pos, none, some, [], ◌∷◌, insert}
use llm_d_scheduler_sim_oper.Api.{SchedulerEppConfig, SchedulerInstall}
use llm_d_scheduler_sim_oper.Kube.Objects.{Kind, Body}
use llm_d_scheduler_sim_oper.Kube.Calls.{ok, Call, lift, ◌>>=◌, ◌>>◌}
use llm_d_scheduler_sim_oper.Kube.Client.{Client, set_owner, empty_meta}
use llm_d_scheduler_sim_oper.Scheduler.Plugins.{plugins_config}
use llm_d_scheduler_sim_oper.Scheduler.EppContent.{
  owner_key, cross_namespace_labels, epp_key, epp_rbac_key, epp_config_key, epp_config_name,
  empty_deployment, empty_service, epp_rules, epp_role_binding, epp_labels, epp_container,
}

module _ (i : SchedulerInstall) (e : SchedulerEppConfig) where
  unfoldable pub mutate_role : Body Kind.role → Body Kind.role
  mutate_role b = record b { spec = epp_rules }

  unfoldable pub mutate_role_binding : Body Kind.role_binding → Body Kind.role_binding
  mutate_role_binding b = record b { spec = epp_role_binding i e }

  unfoldable pub mutate_config_map : Body Kind.config_map → Body Kind.config_map
  mutate_config_map b = record {
    meta = record (b.meta) { labels = insert "app.kubernetes.io/name" i.name b.meta.labels };
    spec = ("epp-config.yaml", plugins_config e.config_profile) ∷ [];
  }

  -- What the callback does not set stays: the annotations of the pod template, the owner.
  unfoldable pub mutate_deployment : Body Kind.deployment → Body Kind.deployment
  mutate_deployment b = record {
    meta = record (b.meta) { labels = epp_labels i e };
    spec = record {
      replicas = some e.replicas;
      selector = some (epp_labels i e);
      template = record (b.spec.template) {
        labels = epp_labels i e;
        service_account_name = e.name;
        containers = epp_container e ∷ [];
        volumes = record { name = "epp-config"; config_map_name = epp_config_name e } ∷ [];
      };
    };
  }

  unfoldable pub mutate_epp_service : Body Kind.service → Body Kind.service
  mutate_epp_service b = record b {
    spec = record {
      service_type = "ClusterIP";
      selector = ("app", e.name) ∷ [];
      ports =
          record { name = "grpc"; port = e.port; target_port = pos 9002; protocol = "TCP" } ∷ [];
    };
  }

module _ (C : Client) (i : SchedulerInstall) (e : SchedulerEppConfig) where
  unfoldable pub reconcile_epp_service_account : Call C.State (Unit {0})
  reconcile_epp_service_account = do
    sa ← lift (
        set_owner C (owner_key i) (epp_key i e Kind.service_account)
          (record { meta = empty_meta; spec = tt }))
    C.create_or_update (epp_key i e Kind.service_account) sa (λ b. ok b)

  -- The labels of the role and of its binding are set on creation only.
  unfoldable pub reconcile_epp_rbac : Call C.State (Unit {0})
  reconcile_epp_rbac = do
    C.create_or_update (epp_rbac_key i e Kind.role)
        (record {
          meta = record { labels = cross_namespace_labels i; owner_references = [] };
          spec = [];
        })
        (λ b. ok (mutate_role i e b))
    C.create_or_update (epp_rbac_key i e Kind.role_binding)
        (record {
          meta = record { labels = cross_namespace_labels i; owner_references = [] };
          spec = record { role_ref = none; subjects = [] };
        })
        (λ b. ok (mutate_role_binding i e b))

  unfoldable pub reconcile_epp_config_map : Call C.State (Unit {0})
  reconcile_epp_config_map = do
    cm ←
        lift
          (set_owner C (owner_key i) (epp_config_key i e) (record { meta = empty_meta; spec = [] }))
    C.create_or_update (epp_config_key i e) cm (λ b. ok (mutate_config_map i e b))

  unfoldable pub reconcile_epp_deployment : Call C.State (Unit {0})
  reconcile_epp_deployment = do
    d ← lift (set_owner C (owner_key i) (epp_key i e Kind.deployment) empty_deployment)
    C.create_or_update (epp_key i e Kind.deployment) d (λ b. ok (mutate_deployment i e b))

  unfoldable pub reconcile_epp_service : Call C.State (Unit {0})
  reconcile_epp_service = do
    svc ← lift (set_owner C (owner_key i) (epp_key i e Kind.service) empty_service)
    C.create_or_update (epp_key i e Kind.service) svc (λ b. ok (mutate_epp_service i e b))

  unfoldable pub reconcile_scheduler_epp : Call C.State (Unit {0})
  reconcile_scheduler_epp = do
    reconcile_epp_service_account
    reconcile_epp_rbac
    reconcile_epp_config_map
    reconcile_epp_deployment
    reconcile_epp_service
