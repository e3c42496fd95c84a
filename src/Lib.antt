-- ===== src/Lib.antt =====
-- The llm-d scheduler simulator operator: two Kubernetes controllers in Go.
--
-- A SchedulerInstall describes a scheduler: an endpoint picker (EPP), a proxy Service in front of the
-- simulated pods, and the Gateway, HTTPRoute, ReferenceGrant, DestinationRule and EnvoyFilter that
-- lead traffic through them. A SimulatorDeployment describes the simulated pods: a prefill and a
-- decode stage, or a single Deployment, with an EPP and gateways of their own. Each controller
-- watches its resource; `Reconcile` fills in the defaults, writes the objects of the enabled parts
-- and sets the status. The two controllers share the cluster, and nothing else.
--
-- Files:
--   Base                  strings, Go's int32 (with the wrap of `port + 1` at 2^31 - 1), maps
--   Api                   api/v1alpha1/schedulerinstall_types.go and simulatordeployment_types.go:
--                         one record for each struct
--   Kube/Objects          the Kubernetes objects, with the fields that the operator reads or sets
--   Kube/Calls            calls that act on a cluster and return a Go `error`; what was written
--                         before an error stays written
--   Kube/Client           the client of controller-runtime: a record of operations, with what is
--                         documented of them as laws (IsLawful), and what holds of a cluster where no
--                         call fails for a reason of its own (Healthy)
--   Kube/Client/Memory    a client over a table, which meets the laws of both
--   Kube/Triples, Rests, Leads, Failures
--                         rules for what a call keeps, what it ensures or leads to, when it writes
--                         nothing, and what it keeps when it fails
--   Conditions            the loop over `Status.Conditions` in both `updateStatus`
--   Scheduler/Defaults    setDefaults of controllers/schedulerinstall_controller.go
--   Scheduler/Epp, EppContent, Plugins
--                         reconcileSchedulerEPP, the five functions it calls, and what these write
--   Scheduler/Network, NetworkContent
--                         reconcileProxyService, reconcileGateway, reconcileHTTPRoute,
--                         reconcileReferenceGrant, reconcileDestinationRule
--   Scheduler/Traffic, References, Connected
--                         what the Gateway API makes of the route and the grant, and where the
--                         references in the route lead
--   Scheduler/Reconcile, EnvoyContent
--                         Reconcile, reconcileEnvoyFilter, deleteEnvoyFilter, updateStatus
--   Simulator/Defaults, Args
--                         setDefaults, the defaults of the parts, and buildSimulatorArgs of
--                         controllers/simulatordeployment_controller.go
--   Simulator/Content, EppContent, GatewayContent
--                         the objects that the controller builds
--   Simulator/Writes      the pattern of its writes: set the owner, Get, Create if there is none, and
--                         else at most Update of the replicas
--   Simulator/Steps       reconcileDeployment, reconcileService, reconcileStage, reconcileEPP,
--                         reconcileInferenceGateways and what these call
--   Simulator/Reconcile   Reconcile and updateStatus
--   Main                  main.go, and SetupWithManager of both controllers; the manager of
--                         controller-runtime is a record of operations
--   Main/Start            the order in which main asks for these
--   Main/Watches          which of the objects that it creates a controller watches
--   Cluster               what holds of the two controllers together: the ports of the EPP, the proxy
--                         Service and the simulated pods, the ReferenceGrant that SchedulerInstalls
--                         share, the stage that SimulatorDeployments share, and reconciles of both
--                         kinds one after another
--   Tests                 example resources, and each theorem at one of them
--
-- The state is the cluster, of which the controllers know only what the client tells them, so that
-- it is a parameter (Client.State). A key is the kind, the namespace and the name of an object. The
-- steps run in the order of the source, and the first error ends the run. Where the Go code sets
-- defaults in the object at hand, the functions here take the object with its defaults set; the
-- stored one keeps the fields as the user wrote them. The time of `metav1.Now` is an argument. No
-- fuel is needed: every loop of the source runs over a list.
--
-- The laws of the client say that a write that reports success can be read back as it was sent, that
-- a write touches no other object, and that one that fails has done what was asked or nothing. A
-- healthy cluster also gives a Service of type "ClusterIP" an address. The laws leave out that the API
-- server may fill in fields of its own, and writes of others between two calls of one run. In
-- IsHealthy, `Create` succeeds where there is no object, and `Update` where there is one, if it leaves
-- the selector of a Deployment and the role of a RoleBinding as they are, which the API server lets no
-- update change; `CreateOrUpdate` succeeds if its callback does and what it makes of an object that is
-- there leaves these alone. The values that are sent, such as names and ports, are taken to be valid,
-- and no object to be marked immutable.
--
-- Not modelled: the scheme registration in api/v1alpha1/groupversion_info.go and main.go, which only
-- calls controller-runtime; the parsing of the operator's command line; the simulator that runs in the
-- pods, whose parser of flags is a parameter (Simulator/Args); api/v1alpha1/zz_generated.deepcopy.go,
-- which is generated; log output; the two files under llm-d-inference-scheduler/_deps, patched copies
-- of another project.
pub mod Base
pub mod Api
pub mod Kube
pub mod Conditions
pub mod Scheduler
pub mod Simulator
pub mod Main
pub mod Cluster
pub mod Tests
