-- ===== src/Controller/Sources/Laws.antt =====
-- What the digest of the observed sources depends on, and how the artifact's revisions follow them.
use mathlib.Core.List.{Perm}
use mathlib.Core.List
use mathlib.Core.List.Perm
use flux_dev.Api.{ManifestArtifact}
use flux_dev.Base.{
  Bool-cases, Option, Option-cases, [], ap, arith, false, if◌then◌else◌, inl, inr, none, refl, some,
  ◌++◌, ◌∙◌, ◌∷◌, ◌≡◌,
}
use flux_dev.Controller.Sources.{
  ArtifactMeta, ObservedSource, hash_observed_sources, origin_annotation, origin_or_revision,
  set_artifact_revisions, set_origin, set_revision, source_line, source_lines,
}
use flux_dev.Dict.{Dict, get, get-put}
use flux_dev.Text.{Text, text, trim_prefix, ◌==◌}
use flux_dev.Text.Equality.{eq_comm, eq_iff, eq_refl}
use flux_dev.Text.Order.{sort-perm}
use flux_dev.Text.Split.{join}

source_lines-map :
    (sources : Dict ObservedSource)
    → source_lines sources ≡ List.map (λ p. source_line p.0 p.1) sources
unfolding source_lines
source_lines-map [] = refl
source_lines-map (p ∷ sources) = ap (λ ls. source_line p.0 p.1 ∷ ls) (source_lines-map sources)

-- The digest of the observed sources is the same for every order in which the map is walked,
-- whatever the hash function is.
pub hash_observed_sources-perm :
    (sha256 : Text → Text) (xs ys : Dict ObservedSource)
    → Perm xs ys
    → hash_observed_sources sha256 xs ≡ hash_observed_sources sha256 ys
unfolding hash_observed_sources
hash_observed_sources-perm sha256 xs ys p =
    rw (source_lines-map xs, source_lines-map ys)
      (ap (λ ls. text "sha256:" ++ sha256 (join ls 10)) (sort-perm (Perm.map _ p)))

set_origin-get :
    (origin : Text) (remote : Dict ObservedSource) (a : ArtifactMeta) (key : Text)
    → (key == origin_annotation) ≡ false
    → get key (set_origin origin remote a).metadata ≡ get key a.metadata
unfolding set_origin
set_origin-get origin remote a key other =
    elim (Option-cases (get (trim_prefix origin (text "@")) remote)) [
      | inl e ↦ ground arith
      | inr (rs, e) ↦ ground (
        arith,
        get-put origin_annotation key (origin_or_revision rs) a.metadata,
        eq_comm key origin_annotation,
      )
    ]

-- The source that a revision field of the spec names, if the field is set and the source was
-- observed.
abbrev pub named_source : Text → Dict ObservedSource → Option ObservedSource
named_source revision remote =
    if revision == [] then none else get (trim_prefix revision (text "@")) remote

set_origin-annotation :
    (origin : Text) (remote : Dict ObservedSource) (a : ArtifactMeta)
    → get origin_annotation (set_origin origin remote a).metadata
      ≡ elim (named_source origin remote) [
        | none ↦ get origin_annotation a.metadata
        | some rs ↦ some (origin_or_revision rs)
      ]
unfolding set_origin
set_origin-annotation origin remote a =
    elim (Option-cases (get (trim_prefix origin (text "@")) remote)) [
      | inl e ↦ ground arith
      | inr (rs, e) ↦ ground (
        arith,
        get-put origin_annotation origin_annotation (origin_or_revision rs) a.metadata,
        eq_refl origin_annotation,
      )
    ]

set_revision-metadata :
    (revision : Text) (remote : Dict ObservedSource) (a : ArtifactMeta)
    → ((set_revision revision remote a).metadata ≡ a.metadata)
      × ((set_revision revision remote a).revision
          ≡ elim (named_source revision remote) [ none ↦ a.revision | some rs ↦ rs.revision ])
unfolding set_revision
set_revision-metadata revision remote a = ground arith

set_origin-revision :
    (origin : Text) (remote : Dict ObservedSource) (a : ArtifactMeta)
    → (set_origin origin remote a).revision ≡ a.revision
unfolding set_origin
set_origin-revision origin remote a = ground arith

-- The revision of an artifact becomes that of the source that spec.revision names, and its origin
-- annotation the origin revision, or else the revision, of the source that spec.originRevision
-- names. Where a field is empty or names no observed source, the artifact keeps what it has, and
-- no other key of the metadata changes.
pub set_artifact_revisions_lem :
    (a : ArtifactMeta) (spec : ManifestArtifact) (remote : Dict ObservedSource) (key : Text)
    → ((set_artifact_revisions a spec remote).revision
        ≡ elim (named_source spec.revision remote) [ none ↦ a.revision | some rs ↦ rs.revision ])
      × (get key (set_artifact_revisions a spec remote).metadata ≡ (
          if key == origin_annotation
          then elim (named_source spec.origin_revision remote) [
            | none ↦ get key a.metadata
            | some rs ↦ some (origin_or_revision rs)
          ]
          else get key a.metadata))
unfolding set_artifact_revisions
set_artifact_revisions_lem a spec remote key =
    let first = set_revision spec.revision remote a in
    let (same, revised) = set_revision-metadata spec.revision remote a in
    (
      set_origin-revision spec.origin_revision remote first ∙ revised,
      elim (Bool-cases (key == origin_annotation)) [
        | inl here ↦
            let k = (eq_iff key origin_annotation).0 here in
            rw (here, k)
              (set_origin-annotation spec.origin_revision remote first ∙ ground (arith, same, k))
        | inr other ↦
            rw other (
              set_origin-get spec.origin_revision remote first key other ∙ ap (λ m. get key m) same)
      ],
    )
