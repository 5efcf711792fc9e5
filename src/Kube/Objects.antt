-- ===== src/Kube/Objects.antt =====
-- The objects that the operator keeps in the cluster, as far as its code names their fields
-- (k8s.io/api, the Argo Rollouts API). `meta` has the name, namespace, labels and annotations.
use bindplane_operator.Prelude.{ℤ, String, Bool, List, Option}
use bindplane_operator.Kube.{Json, ObjectMeta, PodTemplateSpec, IntOrString}

pub record ServiceAccount : Type 0 where
  pub meta : ObjectMeta

-- `selector` has the labels to match, here and below.
pub record DeploymentSpec : Type 0 where
  pub replicas : Option ℤ
  pub min_ready_seconds : ℤ
  pub strategy : Json
  pub selector : List (String × String)
  pub template : PodTemplateSpec

pub record Deployment : Type 0 where
  pub meta : ObjectMeta
  pub spec : DeploymentSpec

pub record BlueGreenStrategy : Type 0 where
  pub active_service : String
  pub auto_promotion_enabled : Option Bool
  pub scale_down_delay_seconds : Option ℤ

pub record RolloutSpec : Type 0 where
  pub replicas : Option ℤ
  pub min_ready_seconds : ℤ
  pub strategy : BlueGreenStrategy
  pub selector : List (String × String)
  pub template : PodTemplateSpec

pub record Rollout : Type 0 where
  pub meta : ObjectMeta
  pub spec : RolloutSpec

pub record StatefulSetSpec : Type 0 where
  pub replicas : Option ℤ
  pub service_name : String
  pub pod_management_policy : String
  pub selector : List (String × String)
  pub template : PodTemplateSpec
  pub volume_claim_templates : Json

pub record StatefulSet : Type 0 where
  pub meta : ObjectMeta
  pub spec : StatefulSetSpec

pub record ServicePort : Type 0 where
  pub name : String
  pub port : ℤ
  pub target_port : IntOrString
  pub protocol : String

pub record ServiceSpec : Type 0 where
  pub type : String
  pub selector : List (String × String)
  pub ports : List ServicePort
  pub cluster_ip : String
  pub cluster_ips : List String
  pub ip_families : List String
  pub ip_family_policy : Option String

pub record Service : Type 0 where
  pub meta : ObjectMeta
  pub spec : ServiceSpec

pub record BudgetSpec : Type 0 where
  pub min_available : Option IntOrString
  pub max_unavailable : Option IntOrString
  pub selector : List (String × String)

pub record PodDisruptionBudget : Type 0 where
  pub meta : ObjectMeta
  pub spec : BudgetSpec

pub record ScaleTarget : Type 0 where
  pub api_version : String
  pub kind : String
  pub name : String

pub record AutoscalerSpec : Type 0 where
  pub scale_target_ref : ScaleTarget
  pub min_replicas : Option ℤ
  pub max_replicas : ℤ
  pub metrics : List Json
  pub behavior : Option Json

pub record HorizontalPodAutoscaler : Type 0 where
  pub meta : ObjectMeta
  pub spec : AutoscalerSpec

-- A Certificate of cert-manager.
pub record IssuerReference : Type 0 where
  pub name : String
  pub kind : String
  pub group : String

pub record CertificateSpec : Type 0 where
  pub secret_name : String
  pub issuer_ref : IssuerReference
  pub dns_names : List String
  pub ip_addresses : List String
  pub common_name : String
  pub key_algorithm : String
  pub key_size : ℤ
  pub usages : List String

pub record Certificate : Type 0 where
  pub meta : ObjectMeta
  pub spec : CertificateSpec
