-- ===== src/Examples/Controller.antt =====
-- The theorems on the controller, at a concrete generator.
use mathlib.Core.List.Perm
use flux_dev.Api.{ExternalArtifactReference, ManifestArtifact, ManifestGenerator}
use flux_dev.Base.{
  All, List, [], err, false, is_some, none, not, ok, refl, some, true, ◌&&◌, ◌∷◌, ◌≡◌, ◌⊎◌,
}
use flux_dev.Builder.Reference.{validate_dest_template}
use flux_dev.Controller.Inventory.{find_orphaned_references}
use flux_dev.Controller.Inventory.Laws.{find_orphaned_references_iff, lists}
use flux_dev.Controller.Pipeline.{
  alias_list, handle_values_error, requeue_source_fetch_failed, resolve_values, run_pipeline,
}
use flux_dev.Controller.Sources.{
  ArtifactMeta, Cluster, ObservedSource, hash_observed_sources, observe_from, observe_source,
  observe_sources,
}
use flux_dev.Controller.Sources.Laws.{hash_observed_sources-perm}
use flux_dev.Controller.Sources.Observed.{IsObserved, observe_sources-IsObserved}
use flux_dev.Controller.Validation.{
  Validator, check_artifact, check_artifacts, check_for_each, check_pipeline, check_sources,
  check_templates, check_values, check_values_from, template_source_alias, validate_spec,
}
use flux_dev.Controller.Validation.Laws.{IsValid, validate_spec_ok}
use flux_dev.Controller.Validation.Resolution.{validate_spec-resolve_values}
use flux_dev.Controller.Validation.Run.{validate_spec-run_pipeline}
use flux_dev.Dict.{Dict, get, keys, put}
use flux_dev.Examples.Setup.{directories, libraries, live, steps_spec}
use flux_dev.Pipeline.Compile.{Step, compile, compile_step, run}
use flux_dev.Pipeline.Compile.Sound.{dangling}
use flux_dev.Pipeline.Expr.{new_key_expr}
use flux_dev.Pipeline.Filter.{compile_filter}
use flux_dev.Pipeline.Load.{compile_load}
use flux_dev.Pipeline.MergeVerb.{compile_merge}
use flux_dev.Pipeline.SourceRef.{split_source_ref, validate_glob}
use flux_dev.Text.{
  Distinct, Text, contains_byte, has, index_byte, starts_with, text, trim_prefix, ◌==◌,
}
use flux_dev.Text.Split.{split}
use flux_dev.Tree.{Value, fields_of, object, string}
use flux_dev.Values.{
  Error, Resolver, at_reference, decode_inline, failed, fetch, resolve, resolve_one, resolve_refs,
  validate_inline, validate_target_path,
}
use flux_dev.Values

abbrev resolver : Values.Resolver
resolver = record {
  reader = λ namespace name. err (failed (text "unreachable"));
  no_cross_namespace_refs = true;
  parse_yaml = λ raw. ok (object []);
}

abbrev validator : Validator
validator = record {
  libraries = libraries;
  resolver = resolver;
  parse_dest = λ dest. ok tt;
  no_cross_namespace_refs = true;
}

abbrev generator : ManifestGenerator
generator = record {
  name = text "mg";
  namespace = text "home";
  annotations = [];
  spec = record {
    interval = 0;
    suspend = false;
    sources =
        record {
          alias = text "main";
          name = text "repo";
          namespace = [];
          kind = text "GitRepository";
        }
        ∷ [];
    values = some (text "x");
    values_from =
        record {
          kind = [];
          name = text "cm";
          namespace = text "home";
          values_key = [];
          target_path = text "a.b";
          optional = false;
        }
        ∷ [];
    pipeline = steps_spec;
    artifacts =
        record {
          name = text "out";
          revision = text "@main";
          origin_revision = [];
          for_each = some (record { from = text "all"; binding = text "x" });
          templates = record { from = text "@main/a.tpl"; to = text "@artifact/app.yaml" } ∷ [];
        }
        ∷ [];
  };
  inventory = [];
}

generator_valid : validate_spec validator generator ≡ ok tt
unfolding validate_spec check_sources check_values check_values_from check_pipeline check_artifacts
    check_artifact check_templates check_for_each template_source_alias validate_dest_template
    trim_prefix validate_inline validate_target_path decode_inline fields_of compile compile_step
    compile_load compile_filter compile_merge split_source_ref starts_with index_byte ◌==◌ has
    validate_glob split new_key_expr
generator_valid = refl

validate_spec_ok_example : IsValid validator generator
validate_spec_ok_example = validate_spec_ok validator generator generator_valid

directories_there :
    All (λ k. is_some (get k directories) ≡ true) (alias_list generator.spec.sources)
unfolding alias_list get ◌==◌
directories_there = (refl, tt)

validate_spec-run_pipeline_example :
    (steps : List Step) × (compile libraries generator.spec.pipeline
        (alias_list generator.spec.sources)
      ≡ ok steps)
    × (run_pipeline libraries live generator directories []
        ≡ run libraries live steps directories [])
    × (dangling (run_pipeline libraries live generator directories []) ≡ false)
validate_spec-run_pipeline_example =
    validate_spec-run_pipeline validator live generator directories [] generator_valid
      directories_there

abbrev failure : Values.Error
failure = at_reference 0 (fetch (text "unreachable"))

values_failed : resolve_values resolver generator ≡ err failure
unfolding resolve_values resolve resolve_refs resolve_one ◌==◌
values_failed = refl

validate_spec-resolve_values_example : handle_values_error failure ≡ requeue_source_fetch_failed
validate_spec-resolve_values_example =
    validate_spec-resolve_values validator generator resolver failure refl generator_valid
      values_failed

abbrev published : Text → ExternalArtifactReference
published name = record { name = name; namespace = text "home"; digest = []; filename = [] }

home_has_no_slash : contains_byte (text "home") b'/' ≡ false
unfolding contains_byte
home_has_no_slash = refl

find_orphaned_references_iff_example :
    lists (published (text "old")) (
      find_orphaned_references
        (published (text "old") ∷ published (text "out") ∷ [])
        (published (text "out") ∷ []))
    ≡ (lists (published (text "old")) (published (text "old") ∷ published (text "out") ∷ [])
        && not (lists (published (text "old")) (published (text "out") ∷ [])))
find_orphaned_references_iff_example =
    find_orphaned_references_iff (published (text "old") ∷ published (text "out") ∷ [])
      (published (text "out") ∷ []) (published (text "old"))
      (home_has_no_slash, (home_has_no_slash, tt)) (home_has_no_slash, tt) home_has_no_slash

abbrev observed : Text → ObservedSource
observed name = record { digest = name; revision = name; url = name; origin_revision = [] }

abbrev main_first : Dict ObservedSource
main_first = (text "main", observed (text "m")) ∷ (text "apps", observed (text "a")) ∷ []

abbrev apps_first : Dict ObservedSource
apps_first = (text "apps", observed (text "a")) ∷ (text "main", observed (text "m")) ∷ []

hash_observed_sources-perm_example :
    hash_observed_sources (λ t. t) main_first ≡ hash_observed_sources (λ t. t) apps_first
hash_observed_sources-perm_example =
    hash_observed_sources-perm (λ t. t) main_first apps_first
      (Perm.swap (text "apps", observed (text "a")) (text "main", observed (text "m")) [])

abbrev built : ArtifactMeta
built = record { revision = text "latest"; metadata = [] }

abbrev spec : ManifestArtifact
spec = record {
  name = text "out";
  revision = text "@main";
  origin_revision = text "@apps";
  for_each = none;
  templates = [];
}

abbrev outputs : Dict Value
outputs = (text "all", string (text "x")) ∷ []

outputs-keys : Distinct (keys outputs)
unfolding keys has
outputs-keys = (refl, tt)

-- Every object is there, with an artifact named after it.
abbrev cluster : Cluster
cluster kind namespace name =
    ok (some (record { digest = name; revision = name; url = name; metadata = [] }))

abbrev repo : Dict ObservedSource
repo = (text "main", observed (text "repo")) ∷ []

generator-aliases : Distinct (alias_list generator.spec.sources)
unfolding alias_list has
generator-aliases = (refl, tt)

generator_observed : observe_sources cluster generator ≡ ok repo
unfolding observe_sources observe_from observe_source has ◌==◌ put get
generator_observed = refl

observe_sources-IsObserved_example :
    All (IsObserved cluster generator.namespace repo) generator.spec.sources
    × ((has (text "main") (alias_list generator.spec.sources) ≡ true)
        ⊎ (get (text "main") repo ≡ none))
observe_sources-IsObserved_example =
    observe_sources-IsObserved cluster generator repo (text "main") generator-aliases
      generator_observed
