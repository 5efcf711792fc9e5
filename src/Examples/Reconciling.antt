-- ===== src/Examples/Reconciling.antt =====
-- The reconcilers of the objects and of Node, on a server that keeps its objects in a list.
use bindplane_operator.EnvVars.Effective.{effective}
use bindplane_operator.Certificates.Hosts.{
  RoutedIn, nats_certificate-names, server_certificates-names,
}
use bindplane_operator.Kube.Objects.{StatefulSet, Deployment, Service}
use bindplane_operator.Examples.{String, empty_codecs, null, zero_object_meta, resource, quantities}
use bindplane_operator.ConfigEnv.Common.{
  shared_env_vars, get_event_bus_health_env_vars, event_bus_env_vars, get_bindplane_common_env_vars,
}
use bindplane_operator.Workloads.NodeRuns.{reconcile_node-Runs}
use bindplane_operator.Examples.ListServer.{
  server-IsWilling, server, indifferent, indifferent-IsReflexive, live_in, accepts_in, stored,
}
use bindplane_operator.Crd.{
  zero_cert_manager_tls_issuer_ref, CertManagerTlsIssuerRef, zero_opamp_component_spec,
  zero_nats_component_spec, Bindplane,
}
use bindplane_operator.ConfigEnv.Nats.{get_nats_client_env_vars}
use bindplane_operator.Certificates.{
  nats_certificate, tsdb_server_certificate, transform_agent_certificate,
}
use bindplane_operator.Prelude.{
  ◌^^◌, if◌then◌else◌, ◌⊎◌, In, map, [], ◌∷◌, none, some, ◌≡◌, refl, pos, is_some, All, List,
}
use bindplane_operator.Parts.Extras.{
  get_node_pod_template, get_nats_pod_template, get_bindplane_jobs_pod_template,
}
use bindplane_operator.Workloads.Node.{node_deployment_for, node_rollout}
use bindplane_operator.Workloads.Jobs.{bindplane_jobs_deployment}
use bindplane_operator.Workloads.Opamp.{opamp_deployment}
use bindplane_operator.Workloads.Nats.{nats_stateful_set_for, nats_stateful_set}
use bindplane_operator.Workloads.Selectors.{
  WhereBuilt, DeploymentMatches, RolloutMatches, StatefulSetMatches, get_selector_labels-Matches,
}
use bindplane_operator.ConfigEnv.{plain}
use bindplane_operator.ConfigEnv.Services.{enabled_remote}
use bindplane_operator.Cluster.{returns}
use bindplane_operator.Api.{answer, same_key, Object, Key, key_of, deployment, service}
use bindplane_operator.Objects.{reconcile_deployment, reconcile_service}
use bindplane_operator.Objects.Workloads.{IsDeployed, reconcile_deployment-IsDeployed}
use bindplane_operator.Objects.Services.{KeepsOthersFields, reconcile_service-KeepsOthersFields}
use bindplane_operator.Workloads.NodeSteps.{reconcile_node}
use bindplane_operator.Workloads.NodeState.{reconcile_node-refines, node_key, node_kinds, wants}
use bindplane_operator.Kube.{PodTemplateSpec}

abbrev empty_template : PodTemplateSpec
empty_template = record {
  labels = [];
  annotations = [];
  spec = record {
    containers = [];
    volumes = [];
    service_account_name = "";
    termination_grace_period_seconds = none;
    affinity = none;
    other = null;
  };
}

-- A Deployment with no replica count, and the live one that was scaled to five.
abbrev jobs : Deployment
jobs = record {
  meta = record zero_object_meta { name = "bp-jobs" };
  spec = record {
    replicas = none;
    min_ready_seconds = pos 0;
    strategy = null;
    selector = [];
    template = empty_template;
  };
}

abbrev scaled : Deployment
scaled = record jobs { spec = record jobs.spec { replicas = some (pos 5) } }

abbrev after_jobs : List Object
after_jobs = (reconcile_deployment server indifferent jobs (deployment scaled ∷ [])).1

rescaled_example :
    (x : Deployment) × IsDeployed indifferent jobs
      (live_in (deployment scaled ∷ []) (key_of (deployment jobs)))
      x
    × ((k : Key)
        → live_in after_jobs k ≡ (
            if same_key (key_of (deployment jobs)) k
            then some (deployment x)
            else live_in (deployment scaled ∷ []) k))
unfolding reconcile_deployment accepts_in answer stored same_key live_in
rescaled_example =
    reconcile_deployment-IsDeployed server indifferent jobs (deployment scaled ∷ []) after_jobs
      indifferent-IsReflexive refl

abbrev resource_service : Service
resource_service = record {
  meta = record zero_object_meta {
    name = "bp-node";
    annotations = ("internal.k8s.bindplane.com/preserve-selector-keys", "track, hash") ∷ [];
  };
  spec = record {
    type = "";
    selector = ("app", "bp") ∷ [];
    ports = [];
    cluster_ip = "";
    cluster_ips = [];
    ip_families = [];
    ip_family_policy = none;
  };
}

-- The same Service with an address and a selector of the Rollout's.
abbrev live_service : Service
live_service = record resource_service {
  spec = record resource_service.spec { selector = ("hash", "1") ∷ []; cluster_ip = "10.0.0.7" };
}

abbrev after_service : List Object
after_service =
    (reconcile_service server indifferent resource_service (service live_service ∷ [])).1

kept_fields_example :
    (x : Service) × (live_in after_service (key_of (service resource_service)) ≡ some (service x))
    × KeepsOthersFields resource_service live_service x
unfolding reconcile_service accepts_in answer stored same_key live_in
kept_fields_example =
    reconcile_service-KeepsOthersFields server indifferent resource_service live_service
      (service live_service ∷ []) after_service refl refl

abbrev after_node : List Object
after_node = (reconcile_node quantities empty_codecs server indifferent resource []).1

refines_example :
    All
      (λ k.
        is_some
          (live_in after_node (node_key quantities empty_codecs server indifferent resource k))
        ≡ wants resource k)
      node_kinds
    × ((k : Key)
        → In k (map (node_key quantities empty_codecs server indifferent resource) node_kinds)
          ⊎ (live_in after_node k ≡ live_in [] k))
unfolding reconcile_node accepts_in answer stored same_key live_in
refines_example =
    reconcile_node-refines quantities empty_codecs server indifferent resource [] after_node refl

selectors_example :
    WhereBuilt DeploymentMatches
      (node_deployment_for quantities empty_codecs resource none (some (pos 2)))
    × WhereBuilt RolloutMatches (node_rollout quantities empty_codecs resource)
    × WhereBuilt DeploymentMatches (bindplane_jobs_deployment quantities empty_codecs resource)
    × WhereBuilt DeploymentMatches
        (opamp_deployment quantities empty_codecs resource zero_opamp_component_spec)
    × WhereBuilt StatefulSetMatches
        (nats_stateful_set_for quantities empty_codecs resource zero_nats_component_spec (pos 3))
unfolding get_node_pod_template get_nats_pod_template get_bindplane_jobs_pod_template
selectors_example =
    get_selector_labels-Matches quantities empty_codecs resource zero_opamp_component_spec
      zero_nats_component_spec none (some (pos 2)) (pos 3) tt tt tt tt

abbrev issuer : CertManagerTlsIssuerRef
issuer = zero_cert_manager_tls_issuer_ref

abbrev with_nats : Bindplane
with_nats = record resource {
  spec = record resource.spec {
    nats = some (record zero_nats_component_spec { replicas = some (pos 2) });
  };
}

nats_names_example :
    ((set : StatefulSet) × (nats_stateful_set quantities empty_codecs with_nats ≡ some set)
      × (set.spec.replicas ≡ some (pos 2))
      × RoutedIn quantities empty_codecs with_nats
          (nats_certificate with_nats issuer).spec.dns_names
          set.spec.template)
    × ((host : String) × In
          (plain "BINDPLANE_NATS_CLIENT_ENDPOINT" ("nats://" ^^ host ^^ ":4222"))
          (get_nats_client_env_vars with_nats)
        × In host (nats_certificate with_nats issuer).spec.dns_names)
unfolding get_bindplane_common_env_vars get_event_bus_health_env_vars event_bus_env_vars
nats_names_example =
    nats_certificate-names quantities empty_codecs with_nats issuer
      (record zero_nats_component_spec { replicas = some (pos 2) }) (pos 2)
      (shared_env_vars with_nats []) refl refl refl

server_names_example :
    ((host : String) × (effective "BINDPLANE_PROMETHEUS_HOST" (shared_env_vars resource [])
        ≡ some (plain "BINDPLANE_PROMETHEUS_HOST" host))
      × In host (tsdb_server_certificate resource issuer).spec.dns_names)
    × ((host : String) × (effective "BINDPLANE_TRANSFORM_AGENT_REMOTE_AGENTS"
            (shared_env_vars resource [])
          ≡ some (plain "BINDPLANE_TRANSFORM_AGENT_REMOTE_AGENTS" (host ^^ ":4568")))
        × In host (transform_agent_certificate resource issuer).spec.dns_names)
unfolding enabled_remote get_bindplane_common_env_vars get_event_bus_health_env_vars
    event_bus_env_vars
server_names_example =
    server_certificates-names resource issuer issuer (shared_env_vars resource []) refl refl

-- Whatever the cluster holds, here a Deployment of another name.
runs_example :
    (reconcile_node quantities empty_codecs server indifferent resource (deployment scaled ∷ [])).0
    ≡ returns tt
unfolding get_bindplane_common_env_vars get_event_bus_health_env_vars event_bus_env_vars
runs_example =
    reconcile_node-Runs quantities empty_codecs resource (shared_env_vars resource []) (pos 1) refl
      refl server server-IsWilling indifferent (deployment scaled ∷ [])
