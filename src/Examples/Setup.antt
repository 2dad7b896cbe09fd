-- ===== src/Examples/Setup.antt =====
-- The libraries and the resources that the examples share.
use flux_dev.Api.{PipelineStep}
use flux_dev.Base.{List, Option, Result, [], err, none, ok, some, true, ℕ, ◌∷◌}
use flux_dev.Dict.{Dict, get}
use flux_dev.Pipeline.Core.{Context, Libraries, Scope, Template}
use flux_dev.Text.{Text, text}
use flux_dev.Tree.{string}

abbrev pub list_of {ℓ} : {E : Type 0} {A : Type ℓ} → Result E (List A) → List A
list_of (ok xs) = xs
list_of (err e) = []

-- A template that is the name of a variable, or else a literal text.
abbrev pub variable : Text → Template
variable src scope = elim (get src scope) [ some (string s) ↦ ok s | _ ↦ ok src ]

-- A decoder that reads every document as a string, and files that all hold `abc`.
abbrev pub libraries : Libraries
libraries = record {
  parse_template = λ name src. ok (variable src);
  parse_yaml = λ raw. ok (string raw);
  parse_json = λ raw. ok (string raw);
  stat = λ dir path. ok (record { is_regular = true; size = 3 });
  glob = λ dir pattern. ok (text "b.txt" ∷ text "a.txt" ∷ []);
  open_file = λ dir path.
      ok (record { stat = ok (record { is_regular = true; size = 3 }); read = ok (text "abc") });
}

abbrev pub live : Context
live = record { before_step = λ n. none; before_item = λ n i. none }

abbrev pub no_polls : ℕ → Option Text
no_polls i = none

abbrev pub step : Text → PipelineStep
step name = record {
  name = name;
  load = none;
  filter = none;
  map = none;
  group = none;
  merge = none;
}

abbrev pub files_step : PipelineStep
files_step = record (step (text "files")) {
  load = some (record {
    from = text "@main/*.txt";
    format = text "text";
    shape = text "map";
    key_expr = text "path";
  });
}

abbrev pub kept_step : PipelineStep
kept_step = record (step (text "kept")) {
  filter = some (record { from = text "files"; condition = text "true" });
}

abbrev pub all_step : PipelineStep
all_step = record (step (text "all")) {
  merge = some (record { from = text "files" ∷ text "kept" ∷ [] });
}

abbrev pub steps_spec : List PipelineStep
steps_spec = files_step ∷ kept_step ∷ all_step ∷ []

abbrev pub aliases : List Text
aliases = text "main" ∷ []

abbrev pub directories : Dict Text
directories = (text "main", text "/tmp/main") ∷ []

abbrev pub scope : Scope
scope = record { sources = directories; values = []; outputs = [] }
