-- ===== src/Builder.antt =====
-- internal/builder: from a ManifestArtifact to the files of its tarball.
pub mod DirHash
pub mod Build
pub mod Mkdir
pub mod Confined
pub mod Core
pub mod Reference
pub mod Partials
pub mod Iterations
pub mod Apply
