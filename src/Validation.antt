-- ===== src/Validation.antt =====
-- internal/validation/validate.go and internal/webhook/v1alpha1/bindplane_webhook.go.
pub mod Errors
pub mod Name
pub mod Patterns
pub mod ExtraEnv
pub mod Volumes
pub mod Pods
pub mod Config
pub mod All
