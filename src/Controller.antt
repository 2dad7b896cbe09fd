-- ===== src/Controller.antt =====
-- internal/controller: the parts of the reconciler that decide what happens to a ManifestGenerator.
pub mod Watches
pub mod Validation
pub mod Sources
pub mod Inventory
pub mod Pipeline
