-- ===== src/Workloads/Jobs.antt =====
-- internal/controller/jobs.go: the Deployment of Bindplane Jobs, reconcileBindplaneJobsRegular, and the
-- pod template of the migration Job.
use bindplane_operator.Prelude.{pos, List, [], ◌∷◌, Option, none, some}
use bindplane_operator.Kube.{
  Json, str, arr, obj, nil, cons, end, field, EnvVar, VolumeMount, Container, PodTemplateSpec,
  ResourceRequirements, Volume,
}
use bindplane_operator.Crd.{Bindplane}
use bindplane_operator.Images.{get_bindplane_jobs_image, get_bindplane_jobs_migrate_image}
use bindplane_operator.EnvVars.{prepend_extra_env}
use bindplane_operator.ConfigEnv.{plain}
use bindplane_operator.GoRuntime.{QuantityOps}
use bindplane_operator.Merge.{Codecs, merge_pod_template_spec}
use bindplane_operator.Workloads.{operator_template, component_deployment, rolling_update, with_env}
use bindplane_operator.Kube.Objects.{Deployment, ServiceAccount}
use bindplane_operator.ConfigEnv.Common.{get_bindplane_common_env_vars}
use bindplane_operator.ConfigEnv.Nats.{get_nats_client_env_vars}
use bindplane_operator.TlsVolumes.{
  get_ldap_tls_volume_and_mount, get_network_tls_volume_and_mount,
  get_postgres_tls_volume_and_mount,
}
use bindplane_operator.TlsVolumes.Internal.{
  get_config_tls_volumes_and_mounts, get_internal_tls_volumes_and_mounts,
  get_transform_agent_tls_volumes_and_mounts, joined_volumes,
}
use bindplane_operator.Parts.{get_kubernetes_env_vars, new_service_account}
use bindplane_operator.Parts.Pods.{
  container_port, server_settings, resources_or, new_container_security_context,
}
use bindplane_operator.Parts.Extras.{
  append_extra_volumes, append_extra_volume_mounts, get_bindplane_jobs_extra_volumes,
  get_bindplane_jobs_extra_volume_mounts, get_bindplane_jobs_pod_template,
  get_bindplane_jobs_extra_env, get_bindplane_jobs_migrate_extra_volumes,
  get_bindplane_jobs_migrate_extra_volume_mounts, get_bindplane_jobs_migrate_pod_template,
  get_bindplane_jobs_migrate_extra_env,
}
use bindplane_operator.Api.{Api, Act, both, panic}
use bindplane_operator.Objects.{Semantic, reconcile_service_account, reconcile_deployment}
use bindplane_operator.Workloads.Nats.{account_of}

-- The affinity in the user's pod template.
abbrev template_affinity : Option PodTemplateSpec → Option Json
template_affinity none = none
template_affinity (some t) = t.spec.affinity

-- getBindplaneJobsAffinity
unfoldable pub get_bindplane_jobs_affinity : Bindplane → Option Json
unfolding get_bindplane_jobs_pod_template
get_bindplane_jobs_affinity b = template_affinity (get_bindplane_jobs_pod_template b)

-- getBindplaneJobsMigrateAffinity
unfoldable pub get_bindplane_jobs_migrate_affinity : Bindplane → Option Json
unfolding get_bindplane_jobs_migrate_pod_template
get_bindplane_jobs_migrate_affinity b =
    template_affinity (get_bindplane_jobs_migrate_pod_template b)

-- bindplaneJobsServiceAccount
unfoldable pub bindplane_jobs_service_account : Bindplane → ServiceAccount
unfolding new_service_account
bindplane_jobs_service_account b =
    new_service_account b "jobs" (account_of b.spec.bindplane_jobs (λ c. c.service_account))

-- bindplaneJobsMigrateServiceAccount
unfoldable pub bindplane_jobs_migrate_service_account : Bindplane → ServiceAccount
unfolding new_service_account
bindplane_jobs_migrate_service_account b =
    new_service_account b "migrate"
      (account_of b.spec.bindplane_jobs_migrate (λ c. c.service_account))

abbrev resources_of :
    {A : Type 0} → Option A → (A → Option ResourceRequirements) → Option ResourceRequirements
resources_of none f = none
resources_of (some c) f = f c

unfoldable pub bindplane_jobs_container : Bindplane → (common : List EnvVar) → Container
unfolding get_bindplane_jobs_image append_extra_volume_mounts get_config_tls_volumes_and_mounts
    get_bindplane_jobs_extra_volume_mounts prepend_extra_env get_kubernetes_env_vars
    get_nats_client_env_vars get_bindplane_jobs_extra_env server_settings
bindplane_jobs_container b common = record {
  name = "server";
  image = get_bindplane_jobs_image b;
  command = [];
  args = [];
  ports = arr (cons (container_port "http" (pos 3001)) nil);
  env = prepend_extra_env (get_bindplane_jobs_extra_env b) (
      get_kubernetes_env_vars "server"
      ∷ (plain "BINDPLANE_MODE" "all,-migrate" ∷ [])
      ∷ common
      ∷ get_nats_client_env_vars b
      ∷ []);
  resources =
      resources_or (resources_of b.spec.bindplane_jobs (λ c. c.resources))
        (("memory", "1024Mi") ∷ []) (("cpu", "1000m") ∷ ("memory", "1024Mi") ∷ []);
  volume_mounts =
      append_extra_volume_mounts (get_config_tls_volumes_and_mounts b).1
        (get_bindplane_jobs_extra_volume_mounts b);
  other = server_settings "http";
}

-- The volumes of the migration Job: those of all but NATS.
unfoldable pub migrate_volumes_and_mounts : Bindplane → List Volume × List VolumeMount
unfolding get_ldap_tls_volume_and_mount get_network_tls_volume_and_mount
    get_postgres_tls_volume_and_mount get_internal_tls_volumes_and_mounts
    get_transform_agent_tls_volumes_and_mounts
migrate_volumes_and_mounts b = joined_volumes (get_ldap_tls_volume_and_mount b) (
    joined_volumes (get_network_tls_volume_and_mount b) (
      joined_volumes (get_postgres_tls_volume_and_mount b) (
        joined_volumes (get_internal_tls_volumes_and_mounts b)
          (get_transform_agent_tls_volumes_and_mounts b))))

unfoldable pub bindplane_jobs_migrate_container : Bindplane → (common : List EnvVar) → Container
unfolding get_bindplane_jobs_migrate_image append_extra_volume_mounts migrate_volumes_and_mounts
    get_bindplane_jobs_migrate_extra_volume_mounts prepend_extra_env get_kubernetes_env_vars
    get_bindplane_jobs_migrate_extra_env new_container_security_context
bindplane_jobs_migrate_container b common = record {
  name = "server";
  image = get_bindplane_jobs_migrate_image b;
  command = "/bindplane" ∷ "migrate" ∷ "-y" ∷ [];
  args = [];
  ports = arr nil;
  env =
      prepend_extra_env (get_bindplane_jobs_migrate_extra_env b)
        (get_kubernetes_env_vars "server" ∷ (plain "BINDPLANE_MODE" "migrate" ∷ []) ∷ common ∷ []);
  resources =
      resources_or (resources_of b.spec.bindplane_jobs_migrate (λ c. c.resources))
        (("memory", "2048Mi") ∷ []) (("cpu", "100m") ∷ ("memory", "2048Mi") ∷ []);
  volume_mounts =
      append_extra_volume_mounts (migrate_volumes_and_mounts b).1
        (get_bindplane_jobs_migrate_extra_volume_mounts b);
  other = obj (
      field "securityContext" (new_container_security_context (some (pos 65534)))
        (field "imagePullPolicy" (str "IfNotPresent") end));
}

module _ (q : QuantityOps) (codecs : Codecs) where
  unfoldable pub bindplane_jobs_template : Bindplane → (common : List EnvVar) → PodTemplateSpec
  unfolding merge_pod_template_spec operator_template bindplane_jobs_container append_extra_volumes
      get_config_tls_volumes_and_mounts get_bindplane_jobs_extra_volumes get_bindplane_jobs_affinity
      get_bindplane_jobs_pod_template
  bindplane_jobs_template b common =
      merge_pod_template_spec q codecs
        (operator_template b "jobs"
          (append_extra_volumes (get_config_tls_volumes_and_mounts b).0
            (get_bindplane_jobs_extra_volumes b))
          (get_bindplane_jobs_affinity b) (bindplane_jobs_container b common) (some (pos 60)) end)
        (get_bindplane_jobs_pod_template b)

  -- bindplaneJobsDeployment
  unfoldable pub bindplane_jobs_deployment : Bindplane → Option Deployment
  unfolding component_deployment bindplane_jobs_template get_bindplane_common_env_vars
  bindplane_jobs_deployment b = with_env (get_bindplane_common_env_vars b) λ common.
      component_deployment b "jobs" (some (pos 1)) (pos 0) (rolling_update (pos 1) (pos 0))
        (bindplane_jobs_template b common)

  -- bindplaneJobsMigrateJob, its pod template.
  unfoldable pub bindplane_jobs_migrate_template : Bindplane → Option PodTemplateSpec
  unfolding merge_pod_template_spec operator_template bindplane_jobs_migrate_container
      append_extra_volumes migrate_volumes_and_mounts get_bindplane_jobs_migrate_extra_volumes
      get_bindplane_jobs_migrate_affinity get_bindplane_jobs_migrate_pod_template
      get_bindplane_common_env_vars
  bindplane_jobs_migrate_template b = with_env (get_bindplane_common_env_vars b) λ common.
      merge_pod_template_spec q codecs
        (operator_template b "migrate"
          (append_extra_volumes (migrate_volumes_and_mounts b).0
            (get_bindplane_jobs_migrate_extra_volumes b))
          (get_bindplane_jobs_migrate_affinity b) (bindplane_jobs_migrate_container b common) none
          (field "restartPolicy" (str "Never") end))
        (get_bindplane_jobs_migrate_pod_template b)

module _ (q : QuantityOps) (codecs : Codecs) (api : Api) (eq : Semantic) where
  abbrev pub built_deployment : Option Deployment → Act api
  built_deployment none = panic api
  built_deployment (some d) = reconcile_deployment api eq d

  -- reconcileBindplaneJobsRegular
  unfoldable pub reconcile_bindplane_jobs_regular : Bindplane → Act api
  unfolding bindplane_jobs_service_account bindplane_jobs_deployment reconcile_service_account
      reconcile_deployment
  reconcile_bindplane_jobs_regular b =
      both api (reconcile_service_account api eq (bindplane_jobs_service_account b))
        (built_deployment (bindplane_jobs_deployment q codecs b))
