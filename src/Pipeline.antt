-- ===== src/Pipeline.antt =====
-- internal/pipeline: the evaluation of `spec.pipeline`.
pub mod Core
pub mod Expr
pub mod SourceRef
pub mod Load
pub mod Filter
pub mod MapVerb
pub mod Group
pub mod MergeVerb
pub mod Compile
