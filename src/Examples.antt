-- ===== src/Examples.antt =====
-- Concrete resources and servers on which the theorems are applied, and runs of the code on them.
mod ListServer
mod Merging
mod Reconciling
use bindplane_operator.Crd.{
  zero_transform_agent_component_spec, zero_nats_component_spec, Bindplane, zero_bindplane,
  zero_bindplane_spec, zero_bindplane_config_spec, zero_store_config, zero_postgres_config,
  zero_bindplane_component_spec, BindplaneStatus, NetworkTlsConfig, PostgresTlsConfig,
  PodDisruptionBudgetSpec, zero_pod_disruption_budget_spec,
}
use bindplane_operator.Validation.Pods.{
  check_image, check_images, check_replicas, validate_transform_agent_tls_config,
  validate_all_pod_disruption_budgets, validate_argo_rollout, validate_image_overrides,
  validate_pod_disruption_budget,
}
use bindplane_operator.Reconcile.{default_phase, reconcile}
use bindplane_operator.Prelude.{
  ◌++◌, ◌*◌, ◌-◌, ◌/◌, ◌≤ℤ◌, add64, wrap64, ℕ, pos, ◌+◌, ◌≤◌, ◌<◌, ◌≡◌, ◌≢◌, refl, ◌↔◌, inl, true,
  false, ◌&&◌, ◌||◌, [], ◌∷◌, Option, none, some, All, codes, leb, nat_eq, member, lookup, quot,
  ◌==◌, if◌then◌else◌, arith, ◌⊎◌, List, String,
}
use bindplane_operator.Kube.{
  EnvVar, Container, zero_object_meta, null, str_val, Volume, VolumeMount, end,
}
use bindplane_operator.Validation.Errors.{version_empty, Given}
use bindplane_operator.Validation.Name.{Unicode, validate_bindplane_name, bytes, utf8, last_of}
use bindplane_operator.Validation.Name.Dns.{
  IsAscii, IsLabel, validate_bindplane_name-eq-none_iff, validate_bindplane_name_non_ascii,
}
use bindplane_operator.Validation.All.{Environment, validate_bindplane}
use bindplane_operator.Validation.All.Whole.{IsValid, validate_bindplane-eq-none_iff}
use bindplane_operator.Workloads.Built.{GivesReplicas}
use bindplane_operator.Merge.{Codecs}
use bindplane_operator.Secrets.Session.{GivesSession, IsFresh, reconcile_session_secret-refers}
use bindplane_operator.ConfigEnv.{from_secret, key_of, plain, secret_or_value}
use bindplane_operator.Cluster.{
  Call, Answer, own_secret, get_secret, create_secret, not_found, get_bindplane, update_status,
  accepted, Job, Server, Library, returns,
}
use bindplane_operator.Cluster.Traces.{Ends}
use bindplane_operator.Migrate.{reconcile_migrate_job}
use bindplane_operator.Images.{annotation_enabled, get_bindplane_jobs_migrate_image}
use bindplane_operator.Reconcile.Order.{Ordered, IsOpen}
use bindplane_operator.Reconcile.Progress.{AllActed, reconcile_of_settled}
use bindplane_operator.Validation.Volumes.{
  validate_all_extra_volumes, check_volumes, check_mounts, validate_extra_volumes,
}
use bindplane_operator.Validation.ExtraEnv.{validate_all_extra_env, validate_extra_env}
use bindplane_operator.Validation.Config.{
  validate_license_config, validate_status_config, check_keys, validate_metrics_config,
  validate_tracing_config, validate_postgres_config, check_postgres, validate_agent_versions_config,
  validate_auth_config,
}
use bindplane_operator.ConfigEnv.Common.{
  shared_env_vars, get_bindplane_config_env_vars, get_event_bus_health_env_vars, event_bus_env_vars,
  user_session_secret, get_bindplane_common_env_vars, required_hosts_of,
}
use bindplane_operator.ConfigEnv.Override.{effective-prepend_common}
use bindplane_operator.Secrets.{
  has_session_secret, reconcile_session_secret, reconcile_status_secret,
}
use bindplane_operator.Secrets.Once.{CreatesOnce, reconcile_secrets-CreatesOnce}
use bindplane_operator.Reconcile.Gated.{reconcile-Ordered}
use bindplane_operator.Reconcile.Branches.{
  Reset, Any, reconcile_migrate_job-Reset, reconcile_of_invalid,
}
use bindplane_operator.EnvVars.Effective.{
  effective, first_some, HasDistinctNames, effective-prepend_extra_env,
}
use bindplane_operator.ConfigEnv.ServiceNames.{
  AllSome, get_bindplane_common_env_vars-HasDistinctNames,
}
use bindplane_operator.ConfigEnv.Majority.{required_hosts_of_majority}
use bindplane_operator.ConfigEnv.Network.{network_tls_env_vars, postgres_tls_env_vars}
use bindplane_operator.TlsVolumes.{network_tls_volume, postgres_tls_volume}
use bindplane_operator.TlsVolumes.Paths.{network_tls_env_vars_iff, postgres_tls_env_vars_iff}
use bindplane_operator.GoRuntime.{
  QuantityOps, ceil_milli_cpus, apply_memory_headroom, get_go_runtime_env_vars,
  apply_go_runtime_env_vars,
}
use bindplane_operator.GoRuntime.Bounds.{
  ceil_milli_cpus_bounds, apply_memory_headroom_lem, apply_memory_headroom_pos,
}
use bindplane_operator.GoRuntime.Effect.{effective-apply_go_runtime_env_vars}
use bindplane_operator.Regexp.{seq, star, range, lit, match_string}
use bindplane_operator.Regexp.Language.{Matches, match_string_iff}
use bindplane_operator.Validation.Patterns.{is_percent, is_dns1123_label}
use bindplane_operator.Validation.Patterns.Labels.{IsDnsLabel, is_dns1123_label_iff}
use bindplane_operator.Validation.Patterns.Percentages.{percent_text, is_percent_iff}
use bindplane_operator.Validation.ExtraEnv.Accepts.{IsUserName, validate_extra_env-eq-none_iff}
use bindplane_operator.Validation.Volumes.Accepts.{validate_extra_volumes-eq-none_iff}
use bindplane_operator.Validation.All.Accepts.{AreVolumes}
use bindplane_operator.Validation.Config.Accepts.{IsAuth, validate_auth_config-eq-none_iff}
use bindplane_operator.Validation.Pods.Accepts.{
  IsBudget, validate_pod_disruption_budget-eq-none_iff,
}
use bindplane_operator.EnvVars.{combine_env_vars, prepend_extra_env}

-- The letters a to z and é, the digits 0 to 9.
abbrev latin : Unicode
latin = record {
  is_letter = λ c. leb 97 c && leb c 122 || nat_eq c 233;
  is_lower = λ c. leb 97 c && leb c 122 || nat_eq c 233;
  is_digit = λ c. leb 48 c && leb c 57;
}

latin-IsAscii : IsAscii latin
latin-IsAscii = record {
  letter = λ c h l. ground arith;
  lower = λ c h. ground arith;
  digit = λ c h. ground arith;
}

-- No text is a duration here.
abbrev environment : Environment
environment = record {
  unicode = latin;
  parse_duration = λ s. none;
  allow_bindplane_extra_env = false;
}

abbrev pub quantities : QuantityOps
quantities = record { is_zero = λ q. q == ""; milli_value = λ q. pos 1500; value = λ q. pos 1000 }

-- Everything is written as an empty map, and what is read changes nothing.
abbrev pub empty_codecs : Codecs
empty_codecs = record {
  pod_spec = record { encode = λ a. some end; decode = λ m a. (true, a) };
  container = record { encode = λ a. some end; decode = λ m a. (true, a) };
}

abbrev library : Library
library = record {
  parse_bool = λ s. if s == "true" then some true else none;
  set_status_condition = λ cs c. c ∷ cs;
  contains_finalizer = λ fs f. member f fs;
  add_finalizer = λ fs f. f ∷ fs;
  remove_finalizer = λ fs f. [];
  environment = environment;
  error_text = λ e. "invalid";
  quantities = quantities;
  codecs = empty_codecs;
}

-- The least resource that is valid.
abbrev pub resource : Bindplane
resource = record zero_bindplane {
  meta = record zero_object_meta { name = "bp"; finalizers = "k8s.bindplane.com/finalizer" ∷ [] };
  spec = record zero_bindplane_spec {
    version = "1.2.3";
    bindplane = record zero_bindplane_component_spec { replicas = some (pos 1) };
    config = record zero_bindplane_config_spec {
      license = "key";
      store = record zero_store_config {
        postgres = some (record zero_postgres_config { host = "db" });
      };
    };
  };
}

abbrev nameless : Bindplane
nameless = record resource { spec = record resource.spec { version = "" } }

abbrev forced : Bindplane
forced = record resource {
  meta = record resource.meta { annotations = ("k8s.bindplane.com/force-migrate", "true") ∷ [] };
}

abbrev done_job : Job
done_job = record {
  deletion_timestamp = none;
  template = record {
    labels = [];
    annotations = [];
    spec = record {
      containers =
          record {
            name = "server";
            image = "ghcr.io/observiq/bindplane-ee:1.2.3";
            command = [];
            args = [];
            ports = null;
            env = [];
            resources = record { limits = []; requests = []; claims = null };
            volume_mounts = [];
            other = null;
          }
          ∷ [];
      volumes = [];
      service_account_name = "";
      termination_grace_period_seconds = none;
      affinity = none;
      other = null;
    };
  };
  conditions = ("Complete", "True") ∷ [];
}

-- A server that accepts every call.
abbrev server_of : Bindplane → Server
server_of b = record {
  answer = λ cs c. accepted;
  bindplane = b;
  job = λ cs. done_job;
  ready_replicas = λ cs w. pos 1;
}

reconcile-Ordered_example :
    Ordered
      (server_of resource)
      (get_bindplane_jobs_migrate_image resource)
      (IsOpen library resource)
      (reconcile library (server_of resource) zero_bindplane []).2
reconcile-Ordered_example = reconcile-Ordered library (server_of resource)

reset_example :
    Ends
      (Reset library (server_of forced))
      (Any library (server_of forced))
      (reconcile_migrate_job library (server_of forced) forced [])
unfolding annotation_enabled lookup
reset_example = reconcile_migrate_job-Reset library (server_of forced) forced [] refl

invalid_example :
    (s : BindplaneStatus) × ((reconcile library (server_of nameless) zero_bindplane []).2
      ≡ update_status s ∷ get_bindplane ∷ [])
    × (s.phase ≡ "Degraded")
    × (s.observed_generation ≡ pos 0)
unfolding member annotation_enabled lookup validate_bindplane validate_bindplane_name bytes utf8
    last_of
invalid_example =
    reconcile_of_invalid library (server_of nameless) version_empty refl (refl, refl, refl) refl

resource_example : (validate_bindplane environment resource ≡ none) ↔ IsValid environment resource
resource_example =
    validate_bindplane-eq-none_iff environment resource latin-IsAscii
      (omega arith, (omega arith, tt))

name_example : (validate_bindplane_name latin "bp" ≡ none) ↔ IsLabel (codes "bp")
name_example =
    validate_bindplane_name-eq-none_iff latin latin-IsAscii "bp" (omega arith, (omega arith, tt))

non_ascii_example : (validate_bindplane_name latin "aéb" ≡ none) × ¬ IsLabel (codes "aéb")
unfolding bytes utf8 last_of
non_ascii_example =
    validate_bindplane_name_non_ascii latin latin-IsAscii "aéb" (97 ∷ []) (98 ∷ []) 233 refl
      (
        (omega arith, omega arith),
        (inl (omega arith, omega arith), tt),
        inl (omega arith, omega arith),
        omega arith,
      )
      (
        (omega arith, omega arith),
        (inl (omega arith, omega arith), tt),
        inl (omega arith, omega arith),
        omega arith,
      )
      (omega arith) refl (omega arith)

distinct_example : AllSome HasDistinctNames (get_bindplane_common_env_vars resource)
distinct_example = get_bindplane_common_env_vars-HasDistinctNames resource

-- A user's variable and one of the operator's.
abbrev user_var : EnvVar
user_var = record { name = "A"; value = "user"; value_from = none }

abbrev operator_var : EnvVar
operator_var = record { name = "A"; value = "operator"; value_from = none }

prepend_example :
    effective "A" (prepend_extra_env (user_var ∷ []) ((operator_var ∷ []) ∷ []))
    ≡ first_some
        (effective "A" (combine_env_vars ((operator_var ∷ []) ∷ [])))
        (effective "A" (user_var ∷ []))
prepend_example = effective-prepend_extra_env "A" (user_var ∷ []) ((operator_var ∷ []) ∷ [])

-- Quantities that are written in milli-CPUs and in bytes.
abbrev pub container : Container
container = record {
  name = "server";
  image = "";
  command = [];
  args = [];
  ports = null;
  env = user_var ∷ [];
  resources = record {
    limits = ("cpu", "1500m") ∷ ("memory", "1000") ∷ [];
    requests = [];
    claims = null;
  };
  volume_mounts = [];
  other = null;
}

runtime_example :
    effective "GOMAXPROCS" (apply_go_runtime_env_vars quantities container).env
    ≡ first_some
        (effective "GOMAXPROCS" (get_go_runtime_env_vars quantities container.resources))
        (effective "GOMAXPROCS" container.env)
runtime_example = effective-apply_go_runtime_env_vars quantities "GOMAXPROCS" container (tt, tt)

cpu_example : (1500 ≤ 1000 * 2) × (1000 * 2 < 1500 + 1000)
unfolding ceil_milli_cpus add64 wrap64 quot
cpu_example = ceil_milli_cpus_bounds 1500 2 (omega arith) (omega arith) refl

headroom_example : apply_memory_headroom (pos 1005) ≡ pos (1005 - 1005 / 10)
headroom_example = apply_memory_headroom_lem 1005 (omega arith) (omega arith)

positive_example : pos 1 ≤ℤ apply_memory_headroom (pos 1)
positive_example = apply_memory_headroom_pos (pos 1)

match_example :
    (match_string (seq (lit 97) (star (range 48 57))) (codes "a10") ≡ true)
    ↔ Matches (seq (lit 97) (star (range 48 57))) (codes "a10")
match_example = match_string_iff (seq (lit 97) (star (range 48 57))) (codes "a10")

label_example : (is_dns1123_label "my-data" ≡ true) ↔ IsDnsLabel (codes "my-data")
label_example = is_dns1123_label_iff "my-data"

percent_example : (is_percent "50%" ≡ true) ↔ ((n : ℕ) × (n ≤ 100) × (codes "50%" ≡ percent_text n))
percent_example = is_percent_iff "50%"

env_example :
    (validate_extra_env "spec.nats.extraEnv" (user_var ∷ []) false ≡ none)
    ↔ All (λ v. IsUserName false v.name) (user_var ∷ [])
env_example = validate_extra_env-eq-none_iff "spec.nats.extraEnv" (user_var ∷ []) false

abbrev pub data_volume : Volume
data_volume = record {
  name = "data";
  source = record {
    host_path = none;
    secret = none;
    config_map = none;
    projected = none;
    csi = none;
    empty_dir = some null;
    downward_api = none;
    other = null;
  };
}

abbrev data_mount : VolumeMount
data_mount = record { name = "data"; mount_path = "/data"; read_only = true; other = null }

volumes_example :
    (validate_extra_volumes "spec.nats" (data_volume ∷ []) (data_mount ∷ []) [] ≡ none)
    ↔ AreVolumes [] (data_volume ∷ []) (data_mount ∷ [])
volumes_example =
    validate_extra_volumes-eq-none_iff "spec.nats" (data_volume ∷ []) (data_mount ∷ []) []

auth_example :
    (validate_auth_config resource.spec.config ≡ none) ↔ Given IsAuth resource.spec.config.auth
auth_example = validate_auth_config-eq-none_iff resource.spec.config

abbrev budget : Option PodDisruptionBudgetSpec
budget = some (record zero_pod_disruption_budget_spec { min_available = some (str_val "50%") })

budget_example : (validate_pod_disruption_budget "spec.nats" budget ≡ none) ↔ Given IsBudget budget
budget_example = validate_pod_disruption_budget-eq-none_iff "spec.nats" budget

majority_example :
    (h : ℕ) × (required_hosts_of (some (pos 3)) (pos 3) ≡ pos h)
    × (3 + 3 + 1 < 2 * h)
    × (2 * h ≤ 3 + 3 + 1 + 2)
majority_example = required_hosts_of_majority 3 3 (omega arith)

abbrev network_tls : NetworkTlsConfig
network_tls = record {
  min_version = "";
  secret_name = "tls";
  cert_key = "crt";
  key_key = "key";
  ca_key = "";
  skip_verify = false;
}

network_tls_example :
    (effective "BINDPLANE_TLS_CERT" (network_tls_env_vars network_tls) ≢ none)
    ↔ ((network_tls_volume (some network_tls)).1 ≢ [])
network_tls_example = network_tls_env_vars_iff network_tls

abbrev postgres_tls : PostgresTlsConfig
postgres_tls = record { secret_name = "tls"; ca_key = "ca"; cert_key = ""; key_key = "" }

postgres_tls_example :
    (effective "BINDPLANE_POSTGRES_SSL_ROOT_CERT" (postgres_tls_env_vars postgres_tls) ≢ none)
    ↔ ((postgres_tls_volume (some postgres_tls)).1 ≢ [])
postgres_tls_example = postgres_tls_env_vars_iff postgres_tls

-- The resource, once its migration is recorded.
abbrev migrated : Bindplane
migrated = record resource {
  spec = record resource.spec {
    nats = some (record zero_nats_component_spec { replicas = some (pos 2) });
    transform_agent = some (record zero_transform_agent_component_spec { replicas = some (pos 1) });
  };
  status = record resource.status {
    components = record resource.status.components {
      jobs_migrate = record {
        image = "ghcr.io/observiq/bindplane-ee:1.2.3";
        ready_replicas = pos 0;
      };
    };
  };
}

migrated_valid : validate_bindplane environment (default_phase migrated) ≡ none
unfolding validate_bindplane validate_bindplane_name bytes utf8 last_of check_replicas
    validate_transform_agent_tls_config validate_all_extra_env validate_extra_env
    validate_all_extra_volumes validate_extra_volumes check_volumes check_mounts
    validate_license_config validate_status_config check_keys validate_auth_config
    validate_metrics_config validate_tracing_config validate_postgres_config check_postgres
    validate_agent_versions_config validate_all_pod_disruption_budgets
    validate_pod_disruption_budget validate_argo_rollout validate_image_overrides check_images
    check_image
migrated_valid = refl

migrated-GivesReplicas : GivesReplicas migrated
migrated-GivesReplicas = record {
  agent = record zero_transform_agent_component_spec { replicas = some (pos 1) };
  gives_agent = refl;
  agent_replicas = pos 1;
  gives_agent_replicas = refl;
  bus = record zero_nats_component_spec { replicas = some (pos 2) };
  gives_bus = refl;
  bus_replicas = pos 2;
  gives_bus_replicas = refl;
  node_replicas = pos 1;
  gives_node_replicas = refl;
}

settled_example :
    ((reconcile library (server_of migrated) zero_bindplane []).0 ≡ returns 0)
    × AllActed (reconcile library (server_of migrated) zero_bindplane []).2
unfolding member annotation_enabled lookup get_bindplane_jobs_migrate_image
settled_example =
    reconcile_of_settled library migrated (λ cs. done_job) (λ cs w. pos 1) (refl, refl, refl)
      migrated_valid migrated-GivesReplicas refl refl

license_example :
    effective "BINDPLANE_LICENSE" (
      prepend_extra_env
        (plain "BINDPLANE_LICENSE" "mine" ∷ [])
        (((user_var ∷ []) ∷ []) ++ (shared_env_vars resource [] ∷ [])))
    ≡ some (plain "BINDPLANE_LICENSE" "key")
unfolding get_bindplane_common_env_vars get_event_bus_health_env_vars event_bus_env_vars
    shared_env_vars combine_env_vars get_bindplane_config_env_vars secret_or_value
license_example =
    effective-prepend_common resource (shared_env_vars resource [])
      (plain "BINDPLANE_LICENSE" "mine" ∷ []) ((user_var ∷ []) ∷ [])
      (plain "BINDPLANE_LICENSE" "key") refl (inl refl)

secrets_example :
    CreatesOnce
      (server_of resource)
      (reconcile_session_secret (server_of resource) (some "x") resource []).2
    × CreatesOnce
        (server_of resource)
        (reconcile_status_secret (server_of resource) (some "x") resource []).2
secrets_example = reconcile_secrets-CreatesOnce (server_of resource) (some "x") resource [] tt

-- A server that has no Secret.
abbrev only_no_secret : List Call → Call → Answer
only_no_secret cs (get_secret name) = not_found
only_no_secret cs c = accepted

abbrev fresh_server : Server
fresh_server = record {
  answer = only_no_secret;
  bindplane = resource;
  job = λ cs. done_job;
  ready_replicas = λ cs w. pos 1;
}

fresh_server-IsFresh : IsFresh fresh_server
fresh_server-IsFresh = record {
  owns = λ cs name. refl;
  lacks = λ cs name. refl;
  creates = λ cs name key value. refl;
}

session_example :
    (GivesSession resource.spec.config.auth
      × (reconcile_session_secret fresh_server (some "x") resource [] ≡ (returns tt, resource, []))
      × (v : EnvVar) × (user_session_secret resource.spec.config.auth ≡ some v)
      × (effective "BINDPLANE_SESSION_SECRET" (shared_env_vars resource []) ≡ some v))
    ⊎ ((¬ GivesSession resource.spec.config.auth)
        × (name : String) × (key : String) × (reconcile_session_secret fresh_server
              (some "x")
              resource
              []
            ≡ (
              returns tt,
              resource,
              create_secret name key "x" ∷ get_secret name ∷ own_secret name ∷ [],
            ))
        × (effective "BINDPLANE_SESSION_SECRET" (shared_env_vars resource [])
            ≡ some (from_secret "BINDPLANE_SESSION_SECRET" (key_of name key))))
unfolding get_bindplane_common_env_vars get_event_bus_health_env_vars event_bus_env_vars
session_example =
    reconcile_session_secret-refers fresh_server "x" resource [] (shared_env_vars resource [])
      fresh_server-IsFresh refl
