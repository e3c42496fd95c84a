-- ===== src/Simulator/Content.antt =====
-- The Deployments and Services that `reconcileDeployment`, `reconcileService` and `reconcileStage` of
-- controllers/simulatordeployment_controller.go build.
use llm_d_scheduler_sim_oper.Base.{ℤ, String, ◌<>◌, none, some, List, [], ◌∷◌, Labels}
use llm_d_scheduler_sim_oper.Api.{ResourceRequirements, StageConfig, SimulatorDeployment}
use llm_d_scheduler_sim_oper.Kube.Objects.{Kind, Key, ServicePort, PodTemplateSpec, Container, Body}
use llm_d_scheduler_sim_oper.Scheduler.EppContent.{tcp_port}
use llm_d_scheduler_sim_oper.Simulator.Args.{build_simulator_args}
use llm_d_scheduler_sim_oper.Simulator.Defaults.{stage_verbosity}

-- The resource as the owner of what it creates.
abbrev pub simulator_key : SimulatorDeployment → Key
simulator_key d = record {
  kind = Kind.simulator_deployment;
  namespace = d.namespace;
  name = d.name;
}

abbrev pub simulator_object_key : SimulatorDeployment → Kind → String → Key
simulator_object_key d k name = record { kind = k; namespace = d.namespace; name = name }

abbrev pub tcp_service_port : ℤ → ℤ → ServicePort
tcp_service_port port target_port = record {
  name = "http";
  port = port;
  target_port = target_port;
  protocol = "TCP";
}

-- The container of a simulator, whose image is a local one.
abbrev pub simulator_container :
    String → String → List String → ℤ → ResourceRequirements → Container
simulator_container name image args port resources = record {
  name = name;
  image = image;
  image_pull_policy = "Never";
  args = args;
  env = [];
  ports = tcp_port "http" port ∷ [];
  liveness_probe = none;
  readiness_probe = none;
  startup_probe = none;
  volume_mounts = [];
  resources = resources;
}

abbrev pub simulator_pods : Labels → Container → PodTemplateSpec
simulator_pods labels container = record {
  labels = labels;
  annotations = [];
  service_account_name = "";
  containers = container ∷ [];
  volumes = [];
}

unfoldable pub legacy_name : SimulatorDeployment → String
legacy_name d = "ms-sim-" <> d.name <> "-decode"

abbrev pub legacy_key : SimulatorDeployment → Key
legacy_key d = simulator_object_key d Kind.deployment (legacy_name d)

abbrev pub legacy_service_key : SimulatorDeployment → Key
legacy_service_key d = simulator_object_key d Kind.service d.spec.service.name

abbrev pub role_labels : SimulatorDeployment → String → Labels
role_labels d role =
    ("llm-d.ai/role", role)
    ∷ ("llm-d.ai/inferenceServing", "true")
    ∷ ("app.kubernetes.io/name", d.name)
    ∷ []

unfoldable pub legacy_selector : SimulatorDeployment → Labels
legacy_selector d = ("llm-d.ai/role", "decode") ∷ ("app.kubernetes.io/name", d.name) ∷ []

unfoldable pub legacy_deployment : SimulatorDeployment → Body Kind.deployment
unfolding legacy_selector
legacy_deployment d = record {
  meta = record { labels = role_labels d "decode"; owner_references = [] };
  spec = record {
    replicas = some d.spec.replicas;
    selector = some (legacy_selector d);
    template = simulator_pods (role_labels d "decode") (
        simulator_container "decode" d.spec.image
          (build_simulator_args d.spec.log_verbosity d.spec.service.port []) d.spec.service.port
          d.spec.resources);
  };
}

unfoldable pub legacy_service : SimulatorDeployment → Body Kind.service
unfolding legacy_selector
legacy_service d = record {
  meta = record { labels = ("app.kubernetes.io/name", d.name) ∷ []; owner_references = [] };
  spec = record {
    service_type = d.spec.service.service_type;
    selector = legacy_selector d;
    ports = tcp_service_port d.spec.service.port d.spec.service.port ∷ [];
  };
}

-- A stage is named for its role alone, not for the resource.
unfoldable pub stage_name : String → String
stage_name stage = "ms-sim-llm-d-modelservice-" <> stage

abbrev pub stage_key : SimulatorDeployment → Kind → String → Key
stage_key d k stage = simulator_object_key d k (stage_name stage)

-- The Deployment of a stage. `c` has its defaults filled in.
unfoldable pub stage_deployment : SimulatorDeployment → String → StageConfig → Body Kind.deployment
stage_deployment d stage c = record {
  meta = record { labels = role_labels d stage; owner_references = [] };
  spec = record {
    replicas = some c.replicas;
    selector = some (role_labels d stage);
    template = simulator_pods (role_labels d stage) (
        simulator_container stage c.image (build_simulator_args (stage_verbosity d c) c.port c.args)
          c.port c.resources);
  };
}

unfoldable pub stage_service : SimulatorDeployment → String → StageConfig → Body Kind.service
stage_service d stage c = record {
  meta = record { labels = role_labels d stage; owner_references = [] };
  spec = record {
    service_type = "ClusterIP";
    selector = role_labels d stage;
    ports = tcp_service_port c.port c.port ∷ [];
  };
}
