-- ===== src/Cluster.antt =====
-- The reconciler's access to the cluster: its calls in their order, and the answers of the API
-- server, which is a parameter. A reconciler's step runs on the local copy of the resource and on
-- the calls made so far, the latest first. A write that is accepted leaves the local copy as sent.
pub mod Traces
use bindplane_operator.Prelude.{ℤ, Bool, true, false, String, List, [], ◌∷◌, Option}
use bindplane_operator.Kube.{Condition, ObjectMeta, PodTemplateSpec}
use bindplane_operator.Crd.{Bindplane, BindplaneStatus}
use bindplane_operator.GoRuntime.{QuantityOps}
use bindplane_operator.Merge.{Codecs}
use bindplane_operator.Validation.Errors.{Error}
use bindplane_operator.Validation.All.{Environment}

-- A sub-reconciler that the controller calls as a whole.
pub data Step : Type 0 where
  tls_certificates session_secret status_secret transform_agent tsdb : Step
  migrate_service_account : Step
  jobs nats node opamp : Step

-- A workload whose ready replicas are read, by its name.
pub data Workload : Type 0 where
  deployment stateful_set : (name : String) → Workload

pub data Call : Type 0 where
  get_bindplane : Call
  update_object : ObjectMeta → Call
  update_status : BindplaneStatus → Call
  patch_annotations : List (String × String) → Call
  run_step : Step → Call
  get_legacy_deployment delete_legacy_deployment : Call
  get_job delete_job own_job : Call
  create_job : (image : String) → Call
  get_workload : Workload → Call
  own_secret get_secret : (name : String) → Call
  create_secret : (name key value : String) → Call

pub data Answer : Type 0 where
  accepted not_found refused : Answer

-- A batch/v1 Job, as far as the controller reads it; a condition is its type and its status.
pub record Job : Type 0 where
  pub deletion_timestamp : Option String
  pub template : PodTemplateSpec
  pub conditions : List (String × String)

-- What the API server says, which may depend on all that was asked before.
pub record Server : Type 0 where
  pub answer : List Call → Call → Answer
  pub bindplane : Bindplane
  pub job : List Call → Job
  pub ready_replicas : List Call → Workload → ℤ

-- What the reconciler takes from libraries (strconv, apimachinery, controller-runtime,
-- encoding/json), and the text of an error.
pub record Library : Type 0 where
  pub parse_bool : String → Option Bool
  pub set_status_condition : List Condition → Condition → List Condition
  pub contains_finalizer : List String → String → Bool
  pub add_finalizer : List String → String → List String
  pub remove_finalizer : List String → String → List String
  pub environment : Environment
  pub error_text : Error → String
  pub quantities : QuantityOps
  pub codecs : Codecs

-- What a step comes to; `panics` is a nil pointer that is dereferenced.
pub data Reply (A : Type 0) : Type 0 where
  returns : A → Reply A
  fails : Reply A
  panics : Reply A

abbrev pub Run : Type 0 → Type 0
Run A = Bindplane → List Call → Reply A × Bindplane × List Call

abbrev pub resume :
    {A B : Type 0} → (A → Run B) → Reply A × Bindplane × List Call → Reply B × Bindplane × List Call
resume f (returns a, b, cs) = f a b cs
resume f (fails, b, cs) = (fails, b, cs)
resume f (panics, b, cs) = (panics, b, cs)

infixl 5 ◌>>=◌ ◌>>◌
abbrev pub ◌>>=◌ : {A B : Type 0} → Run A → (A → Run B) → Run B
◌>>=◌ m f b cs = resume f (m b cs)

abbrev pub ◌>>◌ : {A B : Type 0} → Run A → Run B → Run B
m >> k = m >>= λ _. k

abbrev pub return : {A : Type 0} → A → Run A
return a b cs = (returns a, b, cs)

abbrev pub fail : {A : Type 0} → Run A
fail b cs = (fails, b, cs)

abbrev pub panic : {A : Type 0} → Run A
panic b cs = (panics, b, cs)

-- The local copy, read and changed.
abbrev pub local_copy : Run Bindplane
local_copy b cs = (returns b, b, cs)

abbrev pub modify : (Bindplane → Bindplane) → Run (Unit {0})
modify f b cs = (returns tt, f b, cs)

-- The calls.
module _ (server : Server) where
  abbrev pub ask : Call → Run Answer
  ask c b cs = (returns (server.answer cs c), b, c ∷ cs)

  abbrev pub unless_accepted : Answer → Run (Unit {0})
  unless_accepted accepted = return tt
  unless_accepted not_found = fail
  unless_accepted refused = fail

  -- A call whose error the caller returns.
  abbrev pub must : Call → Run (Unit {0})
  must c = ask c >>= unless_accepted

  -- A deletion, where an object that is gone is no error.
  abbrev pub unless_refused : Answer → Run (Unit {0})
  unless_refused accepted = return tt
  unless_refused not_found = return tt
  unless_refused refused = fail

  abbrev pub must_delete : Call → Run (Unit {0})
  must_delete c = ask c >>= unless_refused

  -- The Job that the server returns to a Get.
  abbrev pub found_job : Run Job
  found_job b cs = (returns (server.job cs), b, cs)

  abbrev pub ready_of : Workload → Run ℤ
  ready_of w b cs = (returns (server.ready_replicas cs w), b, cs)
