-- ===== src/Validation/All/Accepts.antt =====
-- Which resources are accepted: the meaning of ValidateBindplane as a whole.
use bindplane_operator.Prelude.{
  ◌≡◌, ◌↔◌, Bool, String, List, [], ◌∷◌, Option, none, All, Distinct, ◌^^◌, arith,
}
use bindplane_operator.Kube.{EnvVar, Volume, VolumeMount}
use bindplane_operator.Crd.{Bindplane}
use bindplane_operator.Validation.Errors.{Error, ◌>>◌, on-eq-none_iff, Given}
use bindplane_operator.Validation.ExtraEnv.{validate_all_extra_env}
use bindplane_operator.Validation.ExtraEnv.Accepts.{IsUserName, validate_extra_env-eq-none_iff}
use bindplane_operator.Validation.Volumes.{validate_all_extra_volumes, volume_names}
use bindplane_operator.Validation.Volumes.Accepts.{
  IsAllowedVolume, IsAllowedMount, mount_paths, validate_extra_volumes-eq-none_iff,
}

-- A property of each component that the resource sets; the node's is always there.
abbrev pub EachEnv : (List EnvVar → Type 0) → Bindplane → Type 0
EachEnv P b =
    P b.spec.bindplane.extra_env
    × Given (λ c. P c.extra_env) b.spec.bindplane_jobs
    × Given (λ c. P c.extra_env) b.spec.bindplane_jobs_migrate
    × Given (λ c. P c.extra_env) b.spec.transform_agent
    × Given (λ c. P c.extra_env) b.spec.tsdb
    × Given (λ c. P c.extra_env) b.spec.nats
    × Given (λ c. P c.extra_env) b.spec.opamp

-- The extra volumes and mounts of a component; `additional` are the reserved names of its own.
abbrev pub AreVolumes : List String → List Volume → List VolumeMount → Type 0
AreVolumes additional vols ms =
    All (IsAllowedVolume additional) vols
    × Distinct (volume_names vols)
    × All (IsAllowedMount (volume_names vols)) ms
    × Distinct (mount_paths ms)

abbrev pub EachVolumes : Bindplane → Type 0
EachVolumes b =
    AreVolumes [] b.spec.bindplane.extra_volumes b.spec.bindplane.extra_volume_mounts
    × Given (λ c. AreVolumes [] c.extra_volumes c.extra_volume_mounts) b.spec.bindplane_jobs
    × Given (λ c. AreVolumes [] c.extra_volumes c.extra_volume_mounts) b.spec.bindplane_jobs_migrate
    × Given (λ c. AreVolumes [] c.extra_volumes c.extra_volume_mounts) b.spec.transform_agent
    × Given
        (λ c.
          AreVolumes ((b.meta.name ^^ "-" ^^ "tsdb-data") ∷ []) c.extra_volumes
            c.extra_volume_mounts)
        b.spec.tsdb
    × Given (λ c. AreVolumes [] c.extra_volumes c.extra_volume_mounts) b.spec.nats
    × Given (λ c. AreVolumes [] c.extra_volumes c.extra_volume_mounts) b.spec.opamp

-- Seven checks one after the other.
seven :
    (m₁ m₂ m₃ m₄ m₅ m₆ m₇ : Option Error)
    → ((m₁ >> (m₂ >> (m₃ >> (m₄ >> (m₅ >> (m₆ >> m₇)))))) ≡ none) ↔ (
        (m₁ ≡ none)
        × (m₂ ≡ none)
        × (m₃ ≡ none)
        × (m₄ ≡ none)
        × (m₅ ≡ none)
        × (m₆ ≡ none)
        × (m₇ ≡ none))
seven m₁ m₂ m₃ m₄ m₅ m₆ m₇ = ground arith

iff_7 :
    {A₁ A₂ A₃ A₄ A₅ A₆ A₇ B₁ B₂ B₃ B₄ B₅ B₆ B₇ : Type 0}
    → A₁ ↔ B₁
    → A₂ ↔ B₂
    → A₃ ↔ B₃
    → A₄ ↔ B₄
    → A₅ ↔ B₅
    → A₆ ↔ B₆
    → A₇ ↔ B₇
    → (A₁ × A₂ × A₃ × A₄ × A₅ × A₆ × A₇) ↔ (B₁ × B₂ × B₃ × B₄ × B₅ × B₆ × B₇)
iff_7 e₁ e₂ e₃ e₄ e₅ e₆ e₇ = (
  λ (a₁, a₂, a₃, a₄, a₅, a₆, a₇). (e₁.0 a₁, e₂.0 a₂, e₃.0 a₃, e₄.0 a₄, e₅.0 a₅, e₆.0 a₆, e₇.0 a₇),
  λ (b₁, b₂, b₃, b₄, b₅, b₆, b₇). (e₁.1 b₁, e₂.1 b₂, e₃.1 b₃, e₄.1 b₄, e₅.1 b₅, e₆.1 b₆, e₇.1 b₇),
)

pub iff_trans : {A B C : Type 0} → A ↔ B → B ↔ C → A ↔ C
iff_trans (f, g) (h, k) = (λ a. h (f a), λ c. g (k c))

pub env_iff :
    (allow : Bool) (b : Bindplane)
    → (validate_all_extra_env allow b ≡ none) ↔ EachEnv (All (λ v. IsUserName allow v.name)) b
unfolding validate_all_extra_env
env_iff allow b = iff_trans (seven _ _ _ _ _ _ _) (
    iff_7 (validate_extra_env-eq-none_iff _ _ allow)
      (on-eq-none_iff _ _ (λ c. validate_extra_env-eq-none_iff _ c.extra_env allow)
        b.spec.bindplane_jobs)
      (on-eq-none_iff _ _ (λ c. validate_extra_env-eq-none_iff _ c.extra_env allow)
        b.spec.bindplane_jobs_migrate)
      (on-eq-none_iff _ _ (λ c. validate_extra_env-eq-none_iff _ c.extra_env allow)
        b.spec.transform_agent)
      (on-eq-none_iff _ _ (λ c. validate_extra_env-eq-none_iff _ c.extra_env allow) b.spec.tsdb)
      (on-eq-none_iff _ _ (λ c. validate_extra_env-eq-none_iff _ c.extra_env allow) b.spec.nats)
      (on-eq-none_iff _ _ (λ c. validate_extra_env-eq-none_iff _ c.extra_env allow) b.spec.opamp))

pub volumes_iff : (b : Bindplane) → (validate_all_extra_volumes b ≡ none) ↔ EachVolumes b
unfolding validate_all_extra_volumes
volumes_iff b = iff_trans (seven _ _ _ _ _ _ _) (
    iff_7 (validate_extra_volumes-eq-none_iff _ _ _ _)
      (on-eq-none_iff _ _ (λ c. validate_extra_volumes-eq-none_iff _ c.extra_volumes _ _)
        b.spec.bindplane_jobs)
      (on-eq-none_iff _ _ (λ c. validate_extra_volumes-eq-none_iff _ c.extra_volumes _ _)
        b.spec.bindplane_jobs_migrate)
      (on-eq-none_iff _ _ (λ c. validate_extra_volumes-eq-none_iff _ c.extra_volumes _ _)
        b.spec.transform_agent)
      (on-eq-none_iff _ _ (λ c. validate_extra_volumes-eq-none_iff _ c.extra_volumes _ _)
        b.spec.tsdb)
      (on-eq-none_iff _ _ (λ c. validate_extra_volumes-eq-none_iff _ c.extra_volumes _ _)
        b.spec.nats)
      (on-eq-none_iff _ _ (λ c. validate_extra_volumes-eq-none_iff _ c.extra_volumes _ _)
        b.spec.opamp))
