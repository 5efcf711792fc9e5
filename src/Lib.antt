-- ===== src/Lib.antt =====
-- The Bindplane operator: a Kubernetes controller that validates a Bindplane resource, and turns it
-- into the workloads, Secrets and settings of a Bindplane installation.
--
-- The parts of the program and the files that model them:
--   * api/v1alpha1/bindplane_types.go, the resource: Crd and its children, one record for a struct.
--     Kube has the Kubernetes types that the code names.
--   * internal/validation/validate.go: Validation, with a child for each group of validators, and
--     Regexp for the patterns. A validator is an `Option Error`, `none` being acceptance;
--     Validation.All composes them as ValidateBindplane does, and adds the decisions of the webhook
--     (internal/webhook/v1alpha1/bindplane_webhook.go).
--   * internal/controller/config_env.go, the environment of the containers: ConfigEnv, with
--     combineEnvVars, prependExtraEnv and upsertEnvVar in EnvVars, and the TLS volumes of
--     internal/controller/bindplane_controller.go in TlsVolumes.
--   * internal/controller/go_runtime_env.go: GoRuntime, with Go's int64 arithmetic written out.
--   * internal/controller/session_secret.go and status_secret.go: Secrets, with the order
--     of the calls in Secrets.Once and the reference to the Secret in Secrets.Session.
--   * internal/controller/jobs.go, the migration Job: Migrate. internal/controller/
--     bindplane_controller.go: Images (names, images, annotations), Status (readiness), Controller
--     (conditions and the migration gate) and Reconcile (the loop). All run in the monad of Cluster:
--     on the local copy of the resource and the list of the calls made so far, against a server that
--     is a parameter and may answer each call as it likes.
--   * the API server, as the sub-reconcilers use it: Api, a record of operations and laws, with the
--     state of the objects; Kube.Objects has their types. Objects has the reconcilers and deletions
--     of a single object of internal/controller/bindplane_controller.go, node_autoscaling.go and
--     cert_manager.go; its children Plans, Ensures, Runs and Chains are the laws of one step
--     and of steps in a row, which Workloads and Services apply.
--   * mergePodTemplateSpec and its helpers: Merge, with the JSON merge in Merge.Paths and the merges
--     of labels, volumes (with Tables), containers and templates in children of those names.
--   * the builders that the workloads share (labels, services, budgets, security contexts): Parts.
--   * internal/controller/cert_manager.go: Certificates, with the volumes in TlsVolumes.Internal.
--   * internal/controller/node.go, node_rollout.go, node_autoscaling.go, nats.go, opamp.go,
--     transform_agent.go and the Deployment of jobs.go: Workloads, with a child for each; NodeSteps
--     is reconcileNode, NodeState and NodeRuns its theorems, and Built says for which resources the
--     builders give their object. A step is a function of the state of the API server to a reply and
--     a state; a builder that dereferences nil gives none, and the step that calls it panics.
-- A function keeps the source's name, in snake case; a pointer is an Option, a Go int a ℤ.
--
-- Parameters, for code that is not in the repository: Go's unicode tables and random bytes,
-- time.ParseDuration, strconv.ParseBool, the methods of resource.Quantity, apimachinery's
-- SetStatusCondition and DeepEqual, controller-runtime's finalizer helpers, encoding/json on a pod
-- spec and a container, and the API server: an accepted write stands under its key and changes no
-- other object, a refused one changes nothing. The server fills in no defaults. All functions are
-- total, with no fuel.
--
-- Not modelled: internal/controller/prometheus.go (the TSDB's workload); the sub-reconcilers are
-- single calls of the loop in Reconcile, which panic where the builder of their object dereferences
-- nil, and steps of their own in Workloads; the nil dereferences of the migration Job's template are
-- not in the loop; owner references in objects; the texts of validation errors (constructors stand
-- for them); times in conditions; logs. A write that the server accepts leaves the local copy as it
-- was sent.
pub mod Prelude
pub mod Kube
pub mod Crd
pub mod EnvVars
pub mod GoRuntime
pub mod Regexp
pub mod Validation
pub mod ConfigEnv
pub mod TlsVolumes
pub mod Cluster
pub mod Images
pub mod Secrets
pub mod Merge
pub mod Api
pub mod Objects
pub mod Parts
pub mod Certificates
pub mod Workloads
pub mod Migrate
pub mod Status
pub mod Controller
pub mod Reconcile
pub mod Examples
