-- ===== src/Kube.antt =====
-- The Kubernetes client: internal/kube.
pub mod Targets
pub mod Ring
pub mod Drain
pub mod ResizeQueue
pub mod Suppressions
pub mod Incidents
pub mod Dedupe
pub mod Shell
