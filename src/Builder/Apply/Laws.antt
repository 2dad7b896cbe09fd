-- ===== src/Builder/Apply/Laws.antt =====
-- What a successful run of the builder leaves in the staging directory.
use flux_dev.Api.{ManifestArtifact, TemplateSpec}
use flux_dev.Base.{
  >>=-eq-ok, List, Option, Result, [], ap, arith, err, found, guard, length, length-append, ltb,
  none, not, ok, ok-injective, refl, some, suc, sym, wrap, wrap-eq-ok, ℕ, ◌*◌, ◌+◌, ◌∙◌, ◌∷◌, ◌≡◌,
}
use flux_dev.Builder.Apply.{
  Builder, Polls, Staged, Staging, apply_artifact, apply_iterations, apply_template,
  apply_templates, render_template, stat_source, write_staged_file,
}
use flux_dev.Builder.Confined.{render_dest_path-IsInside}
use flux_dev.Builder.Core.{
  Error, already_written, at_template, external, not_regular, over_limit, unknown_alias,
}
use flux_dev.Builder.Iterations.{Iteration, build_iterations, overlay_data}
use flux_dev.Builder.Partials.{max_file_bytes}
use flux_dev.Builder.Reference.{parse_source_ref, render_dest_path}
use flux_dev.Dict.{Dict, get, keys}
use flux_dev.FilePath.{clean}
use flux_dev.Text.{Text}
use flux_dev.Tree.{Value}
use mathlib.Core.Path.{subst}
use flux_dev.Builder.Apply.Written.{Extends, IsStaging, not_taken, write-Extends}

apply_template-Extends :
    (b : Builder) (cancelled : Option Text) (tmpl : TemplateSpec) (sources : Dict Text)
    (scope : Dict Value) (label : Text) (st next : Staging)
    → IsStaging st
    → apply_template b cancelled tmpl sources scope label st ≡ ok next
    → Extends st next
unfolding apply_template
apply_template-Extends b cancelled tmpl sources scope label st next i h =
    let (_, _, h1) =
      >>=-eq-ok
        (elim cancelled as (λ x. Result Error (Unit {0})) [
          | none ↦ ok tt
          | some message ↦ err (external message)
        ])
        _ h in
    let (p, _, h2) = >>=-eq-ok (parse_source_ref tmpl.from) _ h1 in
    let (dir, _, h3) = >>=-eq-ok (found (get p.0 sources) (unknown_alias p.0)) _ h2 in
    let (root, _, h4) = >>=-eq-ok (wrap external (b.open_root dir)) _ h3 in
    let src_path = clean p.1 in
    let (info, _, h5) = >>=-eq-ok (wrap (stat_source src_path) (root.stat src_path)) _ h4 in
    let (_, _, h6) = >>=-eq-ok (guard info.is_regular (not_regular src_path)) _ h5 in
    let (_, _, h7) =
      >>=-eq-ok (guard (not (ltb max_file_bytes info.size)) (over_limit src_path)) _ h6 in
    let (dest, rendered_dest, h8) = >>=-eq-ok (render_dest_path b.engine tmpl.to scope) _ h7 in
    let (u, free, h9) =
      >>=-eq-ok
        (elim (get dest st.written_paths) as (λ x. Result Error (Unit {0})) [
          | none ↦ ok tt
          | some previous ↦ err (already_written dest previous)
        ])
        _ h8 in
    let (body, _, h10) = >>=-eq-ok (render_template b root src_path tmpl.from label scope) _ h9 in
    let f : Staged = record { path = dest; content = body; mode = info.mode } in
    let (files, written, h11) = >>=-eq-ok (write_staged_file b f st.files) _ h10 in
    subst (Extends st) (ok-injective h11) (
      write-Extends b st f tmpl.from files i (not_taken dest st.written_paths u free)
        (render_dest_path-IsInside b.engine tmpl.to scope dest rendered_dest) written)

apply_templates-IsStaging :
    (b : Builder) (polls : ℕ → Option Text) (j : ℕ) (ts : List TemplateSpec) (sources : Dict Text)
    (scope : Dict Value) (label : Text) (st next : Staging)
    → IsStaging st
    → apply_templates b polls j ts sources scope label st ≡ ok next
    → IsStaging next × (length next.files ≡ length st.files + length ts)
unfolding apply_templates
apply_templates-IsStaging b polls j [] sources scope label st next i h =
    let e = ok-injective h in (subst IsStaging e i, omega (arith, ap (λ s. length s.files) e))
apply_templates-IsStaging b polls j (t ∷ ts) sources scope label st next i h =
    let (mid, first, rest) =
      >>=-eq-ok
        (wrap (at_template t.from t.to label) (apply_template b (polls j) t sources scope label st))
        _ h in
    let x =
      apply_template-Extends b (polls j) t sources scope label st mid i
        (wrap-eq-ok (at_template t.from t.to label) _ first) in
    let (staging, count) =
      apply_templates-IsStaging b polls (suc j) ts sources scope label mid next x.staging rest in
    (staging, omega (arith, count, ap length x.added.1, length-append st.files (x.added.0 ∷ [])))

apply_iterations-IsStaging :
    (b : Builder) (polls : Polls) (i : ℕ) (its : List Iteration) (ts : List TemplateSpec)
    (sources : Dict Text) (scope : Dict Value) (st next : Staging)
    → IsStaging st
    → apply_iterations b polls i its ts sources scope st ≡ ok next
    → IsStaging next × (length next.files ≡ length st.files + length its * length ts)
unfolding apply_iterations
apply_iterations-IsStaging b polls i [] ts sources scope st next inv h =
    let e = ok-injective h in (subst IsStaging e inv, omega (arith, ap (λ s. length s.files) e))
apply_iterations-IsStaging b polls i (it ∷ its) ts sources scope st next inv h =
    let (_, _, h1) =
      >>=-eq-ok
        (elim (polls.before_iteration i) as (λ x. Result Error (Unit {0})) [
          | none ↦ ok tt
          | some message ↦ err (external message)
        ])
        _ h in
    let (mid, first, rest) =
      >>=-eq-ok
        (apply_templates b (polls.before_template i) 0 ts sources (overlay_data scope it.bindings)
          it.label st)
        _ h1 in
    let (mid_staging, mid_count) =
      apply_templates-IsStaging b (polls.before_template i) 0 ts sources
        (overlay_data scope it.bindings) it.label st mid inv first in
    let (staging, count) =
      apply_iterations-IsStaging b polls (suc i) its ts sources scope mid next mid_staging rest in
    (staging, omega (arith, mid_count, count))

-- A run that succeeds has written as many files as there are templates times iterations: no two at
-- the same path, each at a path whose segments all name an entry, and all of them, in order, are
-- recorded in `writtenPaths`.
pub apply_artifact-IsStaging :
    (b : Builder) (polls : Polls) (spec : ManifestArtifact) (sources : Dict Text)
    (scope : Dict Value) (its : List Iteration) (st : Staging)
    → build_iterations spec scope ≡ ok its
    → apply_artifact b polls spec sources scope ≡ ok st
    → IsStaging st × (length st.files ≡ length its * length spec.templates)
unfolding apply_artifact keys
apply_artifact-IsStaging b polls spec sources scope its st e h =
    let (same, built, h1) = >>=-eq-ok (build_iterations spec scope) _ h in
    let (_, _, rest) =
      >>=-eq-ok
        (elim b.staging_error as (λ x. Result Error (Unit {0})) [
          | none ↦ ok tt
          | some message ↦ err (external message)
        ])
        _ h1 in
    let (staging, count) =
      apply_iterations-IsStaging b polls 0 same spec.templates sources scope
        (record { files = []; written_paths = [] }) st
        (record { recorded = refl; written_once = tt; inside = tt }) rest in
    (
      staging,
      omega
          (arith, count, ap (λ l. length l * length spec.templates) (ok-injective (sym built ∙ e))),
    )
