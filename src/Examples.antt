-- ===== src/Examples.antt =====
-- Concrete inputs for the theorems, and runs of the definitions on them.
pub mod Watches
pub mod Reconcile
pub mod Runs
pub mod Setup
pub mod Pipeline
pub mod Trees
pub mod Values
pub mod Builder
pub mod Controller
