-- ===== src/Reconcile.antt =====
-- The reconciler: Reconcile and reconcile of internal/controller/manifestgenerator_controller.go,
-- with manifestgenerator_finalize.go and manifestgenerator_status.go.
pub mod Guarded
pub mod Release
pub mod Ready
pub mod Liveness
pub mod Progress
pub mod Failed
pub mod Report
pub mod Settle
pub mod Lifecycle
pub mod Ran
pub mod Deletion
pub mod Publication
pub mod Effects
pub mod Prepare
pub mod Phases
pub mod Stages
pub mod Ends
pub mod Run
pub mod Publish
pub mod Finalize
pub mod Status
pub mod Toolkit
pub mod State
