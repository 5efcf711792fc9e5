-- ===== src/Crd.antt =====
-- api/v1alpha1/bindplane_types.go: the Bindplane custom resource.
mod Auth
mod Store
mod Telemetry
mod Services
mod Components
mod Storage
mod Spec
pub use Auth.*
pub use Store.*
pub use Telemetry.*
pub use Services.*
pub use Components.*
pub use Storage.*
pub use Spec.*
