-- ===== src/Kube/Objects.antt =====
-- The Kubernetes objects, with the fields that the operator reads or sets. What the API server
-- assigns itself, a Service's cluster address included, stands in the status.
use llm_d_scheduler_sim_oper.Base.{
  ℤ, String, Bool, true, Option, List, [], ◌∷◌, ◌≡◌, ◌⊎◌, Labels, String-discrete,
}
use llm_d_scheduler_sim_oper.Api.{
  ResourceRequirements, SchedulerInstallSpec, SchedulerInstallStatus, SimulatorDeploymentSpec,
  SimulatorDeploymentStatus,
}

pub data Kind : Type 0 where
  deployment service config_map service_account role role_binding : Kind
  gateway http_route reference_grant destination_rule envoy_filter : Kind
  scheduler_install simulator_deployment : Kind

Kind-discrete : Discrete Kind
Kind-discrete = hlevel

-- `types.NamespacedName`, with the kind that the Go type of the object stands for.
pub record Key : Type 0 where
  pub kind : Kind
  pub namespace : String
  pub name : String

pub Key-discrete : Discrete Key
Key-discrete = hlevel (Kind-discrete, String-discrete)

-- `schema.GroupVersionKind`
pub record GroupVersionKind : Type 0 where
  pub group : String
  pub version : String
  pub kind : String

-- `metav1.OwnerReference`, as far as `SetControllerReference` fills it in.
pub record OwnerReference : Type 0 where
  pub owner : Key
  pub controller : Bool

-- `metav1.IsControlledBy`: one of the references names the owner as the controller.
abbrev pub IsControlledBy : Key → List OwnerReference → Type 0
IsControlledBy owner [] = ⊥
IsControlledBy owner (r ∷ rs) =
    ((r.owner ≡ owner) × (r.controller ≡ true)) ⊎ IsControlledBy owner rs

-- No other owner is the controller.
abbrev pub IsFreeFor : Key → List OwnerReference → Type 0
IsFreeFor owner [] = Unit {0}
IsFreeFor owner (r ∷ rs) = (r.controller ≡ true → r.owner ≡ owner) × IsFreeFor owner rs

pub record ObjectMeta : Type 0 where
  pub labels : Labels
  pub owner_references : List OwnerReference

-- A value inside `map[string]interface{}`.
mutual
  pub data Value : Type 0 where
    text : String → Value
    int : ℤ → Value
    bool : Bool → Value
    arr : Items → Value
    obj : Fields → Value

  pub data Fields : Type 0 where
    end : Fields
    field : String → Value → Fields → Fields

  pub data Items : Type 0 where
    no_items : Items
    item : Value → Items → Items

pub data EnvVarSource : Type 0 where
  -- `Value`
  literal : String → EnvVarSource
  -- `ValueFrom.FieldRef` with API version and path
  field_ref : String → String → EnvVarSource

pub record EnvVar : Type 0 where
  pub name : String
  pub source : EnvVarSource

pub record ContainerPort : Type 0 where
  pub name : String
  pub container_port : ℤ
  pub protocol : String

pub data ProbeHandler : Type 0 where
  tcp_socket : ℤ → ProbeHandler
  -- path, port and scheme
  http_get : String → ℤ → String → ProbeHandler

pub record Probe : Type 0 where
  pub handler : ProbeHandler
  pub initial_delay_seconds : ℤ
  pub period_seconds : ℤ
  pub timeout_seconds : ℤ
  pub success_threshold : ℤ
  pub failure_threshold : ℤ

pub record VolumeMount : Type 0 where
  pub name : String
  pub mount_path : String

-- A volume from a ConfigMap.
pub record Volume : Type 0 where
  pub name : String
  pub config_map_name : String

pub record Container : Type 0 where
  pub name : String
  pub image : String
  pub image_pull_policy : String
  pub args : List String
  pub env : List EnvVar
  pub ports : List ContainerPort
  pub liveness_probe : Option Probe
  pub readiness_probe : Option Probe
  pub startup_probe : Option Probe
  pub volume_mounts : List VolumeMount
  pub resources : ResourceRequirements

pub record PodTemplateSpec : Type 0 where
  pub labels : Labels
  pub annotations : Labels
  pub service_account_name : String
  pub containers : List Container
  pub volumes : List Volume

pub record DeploymentSpec : Type 0 where
  pub replicas : Option ℤ
  -- `Selector.MatchLabels`
  pub selector : Option Labels
  pub template : PodTemplateSpec

pub record DeploymentStatus : Type 0 where
  pub replicas : ℤ
  pub ready_replicas : ℤ

pub record ServicePort : Type 0 where
  pub name : String
  pub port : ℤ
  pub target_port : ℤ
  pub protocol : String

pub record ServiceSpec : Type 0 where
  pub service_type : String
  pub selector : Labels
  pub ports : List ServicePort

pub record ServiceStatus : Type 0 where
  pub cluster_ip : String

pub record PolicyRule : Type 0 where
  pub api_groups : List String
  pub resources : List String
  pub verbs : List String

pub record RoleRef : Type 0 where
  pub api_group : String
  pub kind : String
  pub name : String

pub record Subject : Type 0 where
  pub kind : String
  pub name : String
  pub namespace : String

pub record RoleBindingSpec : Type 0 where
  pub role_ref : Option RoleRef
  pub subjects : List Subject

-- What a client writes of an object besides its metadata. Of an unstructured object it is the
-- value under `spec`, if there is one.
abbrev pub Spec : Kind → Type 0
Spec Kind.deployment = DeploymentSpec
Spec Kind.service = ServiceSpec
Spec Kind.config_map = Labels
Spec Kind.service_account = Unit {0}
Spec Kind.role = List PolicyRule
Spec Kind.role_binding = RoleBindingSpec
Spec Kind.scheduler_install = SchedulerInstallSpec
Spec Kind.simulator_deployment = SimulatorDeploymentSpec
Spec _ = Option Value

-- What the API server or the status subresource writes.
abbrev pub Status : Kind → Type 0
Status Kind.deployment = DeploymentStatus
Status Kind.service = ServiceStatus
Status Kind.scheduler_install = SchedulerInstallStatus
Status Kind.simulator_deployment = SimulatorDeploymentStatus
Status _ = Unit {0}

-- What a client sends.
pub record Body (k : Kind) : Type 0 where
  pub meta : ObjectMeta
  pub spec : Spec k

-- What the server stores.
pub record Object (k : Kind) : Type 0 where
  pub body : Body k
  pub status : Status k
