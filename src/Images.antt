-- ===== src/Images.antt =====
-- internal/controller/bindplane_controller.go: the names and the images of the workloads, and the
-- flags in the annotations.
use bindplane_operator.Prelude.{
  Bool, false, String, List, Option, none, some, ◌==◌, ◌^^◌, lookup, if◌then◌else◌,
}
use bindplane_operator.Crd.{Bindplane}

-- getResourceName
unfoldable pub get_resource_name : Bindplane → String → String
get_resource_name b component = b.meta.name ^^ "-" ^^ component

-- resolveImage
unfoldable pub resolve_image : String → String → String
resolve_image override default_ref = if override == "" then default_ref else override

abbrev pub default_bindplane_ee_image : Bindplane → String
default_bindplane_ee_image b = "ghcr.io/observiq/bindplane-ee:" ^^ b.spec.version

abbrev pub default_transform_agent_image : Bindplane → String
default_transform_agent_image b =
    "ghcr.io/observiq/bindplane-transform-agent:" ^^ b.spec.version ^^ "-bindplane"

abbrev pub default_tsdb_image : Bindplane → String
default_tsdb_image b = "ghcr.io/observiq/bindplane-prometheus:" ^^ b.spec.version

-- `if p == nil { return d }; return resolveImage(p.Image, d)`
abbrev pub image_or {ℓ} : {A : Type ℓ} → Option A → (A → String) → String → String
image_or none image d = d
image_or (some c) image d = resolve_image (image c) d

-- getNodeImage
unfoldable pub get_node_image : Bindplane → String
get_node_image b = resolve_image b.spec.bindplane.image (default_bindplane_ee_image b)

-- getOpAMPImage
unfoldable pub get_opamp_image : Bindplane → String
get_opamp_image b = image_or b.spec.opamp (λ c. c.image) (default_bindplane_ee_image b)

-- getNatsImage
unfoldable pub get_nats_image : Bindplane → String
get_nats_image b = image_or b.spec.nats (λ c. c.image) (default_bindplane_ee_image b)

-- getBindplaneJobsImage
unfoldable pub get_bindplane_jobs_image : Bindplane → String
get_bindplane_jobs_image b =
    image_or b.spec.bindplane_jobs (λ c. c.image) (default_bindplane_ee_image b)

-- getBindplaneJobsMigrateImage
unfoldable pub get_bindplane_jobs_migrate_image : Bindplane → String
get_bindplane_jobs_migrate_image b =
    image_or b.spec.bindplane_jobs_migrate (λ c. c.image) (default_bindplane_ee_image b)

-- getTransformAgentImage
unfoldable pub get_transform_agent_image : Bindplane → String
get_transform_agent_image b =
    image_or b.spec.transform_agent (λ c. c.image) (default_transform_agent_image b)

-- getTSDBImage
unfoldable pub get_tsdb_image : Bindplane → String
get_tsdb_image b = image_or b.spec.tsdb (λ c. c.image) (default_tsdb_image b)

-- annotationEnabled; a key that is missing reads as the empty text.
abbrev pub value_or_empty : Option String → String
value_or_empty none = ""
value_or_empty (some v) = v

abbrev pub is_true : Option Bool → Bool
is_true none = false
is_true (some b) = b

unfoldable pub annotation_enabled : (String → Option Bool) → List (String × String) → String → Bool
annotation_enabled parse_bool annotations key =
    is_true (parse_bool (value_or_empty (lookup key annotations)))

-- skipMigrateCheck
unfoldable pub skip_migrate_check : (String → Option Bool) → Bindplane → Bool
unfolding annotation_enabled
skip_migrate_check parse_bool b =
    annotation_enabled parse_bool b.meta.annotations "k8s.bindplane.com/skip-migrate-check"
