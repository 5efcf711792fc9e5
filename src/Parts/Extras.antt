-- ===== src/Parts/Extras.antt =====
-- internal/controller/bindplane_controller.go and the workloads' files: the volumes, mounts, variables
-- and pod template that the resource gives for a component.
use bindplane_operator.Prelude.{List, [], ◌++◌, Option, none, some}
use bindplane_operator.Kube.{Volume, VolumeMount, EnvVar, PodTemplateSpec}
use bindplane_operator.Crd.{Bindplane}

-- appendExtraVolumes and appendExtraVolumeMounts
unfoldable pub append_extra_volumes : List Volume → List Volume → List Volume
append_extra_volumes operator extra = operator ++ extra

unfoldable pub append_extra_volume_mounts : List VolumeMount → List VolumeMount → List VolumeMount
append_extra_volume_mounts operator extra = operator ++ extra

-- `if p != nil { return p.F }; return nil`
abbrev pub field_or_nil : {A B : Type 0} → Option A → (A → List B) → List B
field_or_nil none f = []
field_or_nil (some c) f = f c

abbrev pub template_of :
    {A : Type 0} → Option A → (A → Option PodTemplateSpec) → Option PodTemplateSpec
template_of none f = none
template_of (some c) f = f c

unfoldable pub get_node_extra_volumes : Bindplane → List Volume
get_node_extra_volumes b = b.spec.bindplane.extra_volumes

unfoldable pub get_node_extra_volume_mounts : Bindplane → List VolumeMount
get_node_extra_volume_mounts b = b.spec.bindplane.extra_volume_mounts

unfoldable pub get_node_pod_template : Bindplane → Option PodTemplateSpec
get_node_pod_template b = b.spec.bindplane.pod_template

unfoldable pub get_opamp_extra_volumes : Bindplane → List Volume
get_opamp_extra_volumes b = field_or_nil b.spec.opamp (λ c. c.extra_volumes)

unfoldable pub get_opamp_extra_volume_mounts : Bindplane → List VolumeMount
get_opamp_extra_volume_mounts b = field_or_nil b.spec.opamp (λ c. c.extra_volume_mounts)

unfoldable pub get_bindplane_jobs_extra_volumes : Bindplane → List Volume
get_bindplane_jobs_extra_volumes b = field_or_nil b.spec.bindplane_jobs (λ c. c.extra_volumes)

unfoldable pub get_bindplane_jobs_extra_volume_mounts : Bindplane → List VolumeMount
get_bindplane_jobs_extra_volume_mounts b =
    field_or_nil b.spec.bindplane_jobs (λ c. c.extra_volume_mounts)

unfoldable pub get_bindplane_jobs_extra_env : Bindplane → List EnvVar
get_bindplane_jobs_extra_env b = field_or_nil b.spec.bindplane_jobs (λ c. c.extra_env)

unfoldable pub get_bindplane_jobs_pod_template : Bindplane → Option PodTemplateSpec
get_bindplane_jobs_pod_template b = template_of b.spec.bindplane_jobs (λ c. c.pod_template)

unfoldable pub get_bindplane_jobs_migrate_extra_volumes : Bindplane → List Volume
get_bindplane_jobs_migrate_extra_volumes b =
    field_or_nil b.spec.bindplane_jobs_migrate (λ c. c.extra_volumes)

unfoldable pub get_bindplane_jobs_migrate_extra_volume_mounts : Bindplane → List VolumeMount
get_bindplane_jobs_migrate_extra_volume_mounts b =
    field_or_nil b.spec.bindplane_jobs_migrate (λ c. c.extra_volume_mounts)

unfoldable pub get_bindplane_jobs_migrate_extra_env : Bindplane → List EnvVar
get_bindplane_jobs_migrate_extra_env b =
    field_or_nil b.spec.bindplane_jobs_migrate (λ c. c.extra_env)

unfoldable pub get_bindplane_jobs_migrate_pod_template : Bindplane → Option PodTemplateSpec
get_bindplane_jobs_migrate_pod_template b =
    template_of b.spec.bindplane_jobs_migrate (λ c. c.pod_template)

unfoldable pub get_nats_extra_volumes : Bindplane → List Volume
get_nats_extra_volumes b = field_or_nil b.spec.nats (λ c. c.extra_volumes)

unfoldable pub get_nats_extra_volume_mounts : Bindplane → List VolumeMount
get_nats_extra_volume_mounts b = field_or_nil b.spec.nats (λ c. c.extra_volume_mounts)

unfoldable pub get_nats_extra_env : Bindplane → List EnvVar
get_nats_extra_env b = field_or_nil b.spec.nats (λ c. c.extra_env)

unfoldable pub get_nats_pod_template : Bindplane → Option PodTemplateSpec
get_nats_pod_template b = template_of b.spec.nats (λ c. c.pod_template)

unfoldable pub get_transform_agent_extra_volumes : Bindplane → List Volume
get_transform_agent_extra_volumes b = field_or_nil b.spec.transform_agent (λ c. c.extra_volumes)

unfoldable pub get_transform_agent_extra_volume_mounts : Bindplane → List VolumeMount
get_transform_agent_extra_volume_mounts b =
    field_or_nil b.spec.transform_agent (λ c. c.extra_volume_mounts)

unfoldable pub get_transform_agent_extra_env : Bindplane → List EnvVar
get_transform_agent_extra_env b = field_or_nil b.spec.transform_agent (λ c. c.extra_env)

unfoldable pub get_transform_agent_pod_template : Bindplane → Option PodTemplateSpec
get_transform_agent_pod_template b = template_of b.spec.transform_agent (λ c. c.pod_template)

unfoldable pub get_tsdb_extra_volumes : Bindplane → List Volume
get_tsdb_extra_volumes b = field_or_nil b.spec.tsdb (λ c. c.extra_volumes)

unfoldable pub get_tsdb_extra_volume_mounts : Bindplane → List VolumeMount
get_tsdb_extra_volume_mounts b = field_or_nil b.spec.tsdb (λ c. c.extra_volume_mounts)

unfoldable pub get_tsdb_extra_env : Bindplane → List EnvVar
get_tsdb_extra_env b = field_or_nil b.spec.tsdb (λ c. c.extra_env)

unfoldable pub get_tsdb_pod_template : Bindplane → Option PodTemplateSpec
get_tsdb_pod_template b = template_of b.spec.tsdb (λ c. c.pod_template)
