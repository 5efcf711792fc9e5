-- ===== src/Kube.antt =====
-- The Kubernetes API objects that the operator reads and writes, as far as its code names their
-- fields (k8s.io/api). A part that the code only passes on is a `Json` value.
pub mod Objects
use bindplane_operator.Prelude.{ℤ, pos, String, Bool, List, [], Option, none}

mutual
  pub data Json : Type 0 where
    null : Json
    bool : Bool → Json
    num : ℤ → Json
    str : String → Json
    arr : Items → Json
    obj : Fields → Json

  pub data Items : Type 0 where
    nil : Items
    cons : Json → Items → Items

  -- The keys of an object are distinct.
  pub data Fields : Type 0 where
    end : Fields
    field : String → Json → Fields → Fields

pub record SecretKeySelector : Type 0 where
  pub name : String
  pub key : String
  pub optional : Option Bool

-- `field_ref` is the field path; the other sources are passed on.
pub record EnvVarSource : Type 0 where
  pub field_ref : Option String
  pub secret_key_ref : Option SecretKeySelector
  pub other : Json

pub record EnvVar : Type 0 where
  pub name : String
  pub value : String
  pub value_from : Option EnvVarSource

-- A quantity by its text; its arithmetic is the library's (`QuantityOps` of GoRuntime).
abbrev pub Quantity : Type 0
Quantity = String

pub record ResourceRequirements : Type 0 where
  pub limits : List (String × Quantity)
  pub requests : List (String × Quantity)
  pub claims : Json

-- `items` are pairs of a key and a path.
pub record SecretVolumeSource : Type 0 where
  pub secret_name : String
  pub items : List (String × String)
  pub other : Json

pub record VolumeSource : Type 0 where
  pub host_path : Option Json
  pub secret : Option SecretVolumeSource
  pub config_map : Option Json
  pub projected : Option Json
  pub csi : Option Json
  pub empty_dir : Option Json
  pub downward_api : Option Json
  pub other : Json

pub record Volume : Type 0 where
  pub name : String
  pub source : VolumeSource

pub record VolumeMount : Type 0 where
  pub name : String
  pub mount_path : String
  pub read_only : Bool
  pub other : Json

pub data IntOrString : Type 0 where
  int_val : ℤ → IntOrString
  str_val : String → IntOrString

pub record Condition : Type 0 where
  pub type : String
  pub status : String
  pub reason : String
  pub message : String
  pub observed_generation : ℤ

pub record ObjectMeta : Type 0 where
  pub name : String
  pub namespace : String
  pub labels : List (String × String)
  pub annotations : List (String × String)
  pub generation : ℤ
  pub deletion_timestamp : Option String
  pub finalizers : List String

abbrev pub zero_object_meta : ObjectMeta
zero_object_meta = record {
  name = "";
  namespace = "";
  labels = [];
  annotations = [];
  generation = pos 0;
  deletion_timestamp = none;
  finalizers = [];
}

pub record Container : Type 0 where
  pub name : String
  pub image : String
  pub command : List String
  pub args : List String
  pub ports : Json
  pub env : List EnvVar
  pub resources : ResourceRequirements
  pub volume_mounts : List VolumeMount
  pub other : Json

pub record PodSpec : Type 0 where
  pub containers : List Container
  pub volumes : List Volume
  pub service_account_name : String
  pub termination_grace_period_seconds : Option ℤ
  pub affinity : Option Json
  pub other : Json

pub record PodTemplateSpec : Type 0 where
  pub labels : List (String × String)
  pub annotations : List (String × String)
  pub spec : PodSpec
