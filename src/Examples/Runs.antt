-- ===== src/Examples/Runs.antt =====
-- A reconciler and an object that the examples of the reconciler share.
use flux_dev.Api.{ExternalArtifactReference, ManifestGenerator}
use flux_dev.Base.{
  List, [], arith, err, false, if◌then◌else◌, none, ok, refl, some, true, ◌++◌, ◌∷◌, ◌≡◌,
}
use flux_dev.Builder.Apply.{Builder}
use flux_dev.Builder.Build.{Storage}
use flux_dev.Builder.Core.{Engine}
use flux_dev.Controller.Sources.{Cluster}
use flux_dev.Dict.{Dict, get, get-put, put}
use flux_dev.Examples.Setup.{libraries, live, no_polls}
use flux_dev.Reconcile.Finalize.{finalizer}
use flux_dev.Reconcile.Publish.{Params}
use flux_dev.Reconcile.State.{Object, done}
use flux_dev.Reconcile.Toolkit.{
  Condition, IsToolkit, Status, Toolkit, is_false, is_true, reconciling_condition,
  stalled_condition, unknown,
}
use flux_dev.Render.Functions.{get-remove, remove}
use flux_dev.Text.{Text, has, text, ◌==◌}
use flux_dev.Text.Equality.{eq_comm, has_head}
use flux_dev.Tree.{object}
use flux_dev.Values.{Resolver}
use flux_dev.Values

-- Conditions by their kinds.
abbrev pub Conditions : Type 0
Conditions = Dict Condition

abbrev pub condition : Text → Status → Text → Condition
condition kind status reason = record { kind = kind; status = status; reason = reason }

unfoldable pub drop_finalizer : Text → List Text → List Text
drop_finalizer f [] = []
drop_finalizer f (g ∷ fs) = let rest = drop_finalizer f fs in if g == f then rest else g ∷ rest

abbrev pub toolkit : Toolkit Conditions
toolkit = record {
  find = get;
  set = λ x c. put x.kind x c;
  delete = remove;
  mark_true = λ k reason c. put k (condition k is_true reason) c;
  mark_false = λ k reason c. put k (condition k is_false reason) c;
  mark_unknown = λ k reason c. put k (condition k unknown reason) c;
  mark_reconciling = λ reason c.
      put reconciling_condition (condition reconciling_condition is_true reason)
        (remove stalled_condition c);
  mark_stalled = λ reason c.
      put stalled_condition (condition stalled_condition is_true reason)
        (remove reconciling_condition c);
  contains_finalizer = has;
  add_finalizer = λ f fs. f ∷ fs;
  remove_finalizer = drop_finalizer;
  reconcile_annotation_value = get (text "reconcile.fluxcd.io/requestedAt");
  jitter = λ n. n;
}

has-drop_finalizer : (f : Text) (fs : List Text) → has f (drop_finalizer f fs) ≡ false
unfolding has drop_finalizer
has-drop_finalizer f [] = refl
has-drop_finalizer f (g ∷ fs) = ground (arith, has-drop_finalizer f fs)

pub toolkit_laws : IsToolkit toolkit
toolkit_laws = record {
  find-set = λ k x c. get-put x.kind k x c;
  find-delete = λ k j c. get-remove j k c;
  find-mark_true = λ k j reason c. get-put j k (condition j is_true reason) c;
  find-mark_false = λ k j reason c. get-put j k (condition j is_false reason) c;
  find-mark_unknown = λ k j reason c. get-put j k (condition j unknown reason) c;
  find-mark_reconciling = λ k reason c. ground (
    arith,
    get-put reconciling_condition k (condition reconciling_condition is_true reason)
        (remove stalled_condition c),
    get-remove stalled_condition k c,
    eq_comm k reconciling_condition,
    eq_comm k stalled_condition,
  );
  find-mark_stalled = λ k reason c. ground (
    arith,
    get-put stalled_condition k (condition stalled_condition is_true reason)
        (remove reconciling_condition c),
    get-remove reconciling_condition k c,
    eq_comm k reconciling_condition,
    eq_comm k stalled_condition,
  );
  contains-add = λ f fs. has_head f fs;
  contains-remove = λ f fs. has-drop_finalizer f fs;
}

abbrev pub resolver : Values.Resolver
resolver = record {
  reader = λ namespace name. ok [];
  no_cross_namespace_refs = true;
  parse_yaml = λ raw. ok (object []);
}

abbrev pub storage : Storage
storage = record {
  make_dir = λ dir. none;
  dir_files = λ dir name staged.
      ok (record { files = text "out/a" ∷ []; open_file = λ name. ok (text "abc") });
  new_artifact_for = λ namespace name dir file. record {
    path = namespace ++ b'/' ∷ name ++ b'/' ∷ file;
    digest = [];
    info = record { revision = []; metadata = [] };
  };
  mkdir_all = λ a. none;
  lock = λ a. none;
  archive = λ a dir staged. ok (record a { digest = text "sha256:0" });
}

abbrev pub engine : Engine
engine name src data_ opts = ok src

abbrev pub builder : Builder
builder = record {
  engine = engine;
  open_root = λ dir. err (text "no such directory");
  staging_error = none;
  write_error = λ path. none;
}

-- Every object is there, with an artifact named after it.
abbrev pub cluster : Cluster
cluster kind namespace name =
    ok (some (record { digest = name; revision = name; url = name; metadata = [] }))

abbrev pub params : Params Conditions
params = record {
  toolkit = toolkit;
  environment = λ trace e. done;
  cluster = cluster;
  validator = record {
    libraries = libraries;
    resolver = resolver;
    parse_dest = λ dest. ok tt;
    no_cross_namespace_refs = true;
  };
  builder = builder;
  storage = storage;
  sha256 = λ t. t;
  controller_name = text "flux";
  dependency_requeue_interval = 5;
  temp_dir = ok (text "/tmp/mg");
  context = live;
  polls = λ name. record { before_iteration = no_polls; before_template = λ i. no_polls };
}

abbrev pub reference : Text → ExternalArtifactReference
reference name = record { name = name; namespace = text "home"; digest = []; filename = [] }

abbrev pub generator : ManifestGenerator
generator = record {
  name = text "mg";
  namespace = text "home";
  annotations = [];
  spec = record {
    interval = 0;
    suspend = false;
    sources =
        record {
          alias = text "main";
          name = text "repo";
          namespace = [];
          kind = text "GitRepository";
        }
        ∷ [];
    values = none;
    values_from = [];
    pipeline = [];
    artifacts =
        record {
          name = text "out";
          revision = [];
          origin_revision = [];
          for_each = none;
          templates = [];
        }
        ∷ [];
  };
  inventory = [];
}

abbrev pub fresh : Object Conditions
fresh = record {
  generator = generator;
  uid = text "1";
  generation = 1;
  is_deleting = false;
  finalizers = [];
  conditions = [];
  observed_generation = 0;
  observed_sources_digest = [];
  last_handled_reconcile_at = [];
}

-- An object with a finalizer that has published `old`.
abbrev pub working : Object Conditions
working = record fresh {
  finalizers = finalizer ∷ [];
  generator = record generator { inventory = reference (text "old") ∷ [] };
}

abbrev pub deleting : Object Conditions
deleting = record working { is_deleting = true }
