-- ===== src/Render/Laws.antt =====
-- Which functions a template has, and which template an error of Render names.
use flux_dev.Base.{
  >>=-eq-err, List, Option, Result, [], ap, arith, err, if◌then◌else◌, inl, inr, none, refl, some,
  true, wrap, wrap-eq-err, ℕ, ◌++◌, ◌||◌, ◌∷◌, ◌≡◌,
}
use flux_dev.Builder.Core.{Lookup, Options, Partial}
use flux_dev.Dict.{Dict, get, get-put}
use flux_dev.Render.{Library, parse_partials, render}
use flux_dev.Render.Functions.{
  Func, add_helm_helpers, from_json, from_yaml, func_map, get-remove, include, lookup_file,
  render_functions, required, sprigs, to_json, to_yaml, tpl,
}
use flux_dev.Text.{Text, has, text, ◌==◌}
use flux_dev.Text.Equality.{eq_iff}
use flux_dev.Tree.{Value}

module _ {F : Type 0} where
  -- What a name stands for in a rendered template.
  abbrev pub function_of : Dict F → Option Lookup → Text → Option (Func F)
  function_of functions lookup k =
      if text "tpl" == k
      then some tpl
      else if text "include" == k
      then some include
      else if text "lookupFile" == k
      then some (lookup_file lookup)
      else if text "required" == k
      then some required
      else if text "fromJson" == k
      then some from_json
      else if text "toJson" == k
      then some to_json
      else if text "fromYaml" == k
      then some from_yaml
      else if text "toYaml" == k
      then some to_yaml
      else if text "expandenv" == k || text "env" == k
      then none
      else get k (sprigs functions)

  get-func_map_chain :
      (functions : Dict F) (k : Text)
      → get k (func_map functions) ≡ (
          if text "tpl" == k
          then none
          else if text "include" == k
          then none
          else if text "expandenv" == k
          then none
          else if text "env" == k
          then none
          else get k (sprigs functions))
  unfolding func_map
  get-func_map_chain functions k = simp (get-remove) refl

  get-helpers :
      (functions : Dict F) (lookup : Option Lookup) (k : Text)
      → get k (render_functions functions lookup) ≡ (
          if text "tpl" == k
          then some tpl
          else if text "include" == k
          then some include
          else if text "lookupFile" == k
          then some (lookup_file lookup)
          else if text "required" == k
          then some required
          else if text "fromJson" == k
          then some from_json
          else if text "toJson" == k
          then some to_json
          else if text "fromYaml" == k
          then some from_yaml
          else if text "toYaml" == k
          then some to_yaml
          else get k (func_map functions))
  unfolding render_functions add_helm_helpers
  get-helpers functions lookup k = simp (get-put) refl

  -- A rendered template has the program's own helpers under their names, whatever Sprig has there,
  -- no `env` and no `expandenv`, and otherwise the functions of Sprig.
  pub get-render_functions :
      (functions : Dict F) (lookup : Option Lookup) (k : Text)
      → get k (render_functions functions lookup) ≡ function_of functions lookup k
  get-render_functions functions lookup k =
      ground (arith, get-helpers functions lookup k, get-func_map_chain functions k)

  -- An expression of the pipeline has no `env`, `expandenv`, `include` or `tpl`.
  pub get-func_map :
      (functions : Dict F) (k : Text)
      → get k (func_map functions) ≡ (
          if has k (text "env" ∷ text "expandenv" ∷ text "include" ∷ text "tpl" ∷ [])
          then none
          else get k (sprigs functions))
  unfolding has
  get-func_map functions k = ground (arith, get-func_map_chain functions k)

abbrev pub partial_names : List Partial → List Text
partial_names [] = []
partial_names (p ∷ ps) = p.name ∷ partial_names ps

module _ {T F : Type 0} (lib : Library T F) where
  parse_partials-error :
      (ps : List Partial) (t : T) {template message : Text}
      → parse_partials lib ps t ≡ err (template, message)
      → has template (partial_names ps) ≡ true
  unfolding parse_partials has
  parse_partials-error [] t e = cc
  parse_partials-error (p ∷ ps) t {template = template} e =
      elim (>>=-eq-err
        (wrap (λ m. (p.name, text "parse partial: " ++ m)) (lib.parse p.name p.src t)) _ e) [
          | inl stops ↦
              (let (m, same) =
                  wrap-eq-err (λ m. (p.name, text "parse partial: " ++ m))
                    (lib.parse p.name p.src t) stops in
                ground (arith, eq_iff p.name template, ap (λ x. x.0) same))
          | inr (next, parsed, later) ↦ ground (arith, parse_partials-error ps next later)
        ]

  named_error :
      (name prefix template : Text) {message : Text} {A : Type 0} (m : Result Text A)
      → wrap {F = Text × Text} (λ e. (name, prefix ++ e)) m ≡ err (template, message)
      → (name == template) ≡ true
  named_error name prefix template m h =
      (eq_iff name template).1
        (ap (λ x. x.0) (wrap-eq-err {F = Text × Text} (λ e. (name, prefix ++ e)) m h).1)

  -- An error of Render names the template itself or one of the partials.
  pub render-error_template :
      (name : Text) (src : List ℕ) (scope : Dict Value) (opts : Options) {template message : Text}
      → render lib name src scope opts ≡ err (template, message)
      → has template (name ∷ partial_names opts.partials) ≡ true
  unfolding render has
  render-error_template name src scope opts {template = template} e =
      let root = lib.new_template name (render_functions lib.sprig_functions opts.lookup_file) in
      elim (>>=-eq-err (parse_partials lib opts.partials root) _ e) [
        | inl stops ↦ ground (arith, parse_partials-error opts.partials root stops)
        | inr (t, parsed, later) ↦
            elim (>>=-eq-err (wrap (λ m. (name, text "parse: " ++ m)) (lib.parse name src t)) _
              later) [
                | inl stops ↦
                    ground (
                      arith,
                      named_error name (text "parse: ") template (lib.parse name src t) stops,
                    )
                | inr (whole, ok_, last) ↦ ground (
                  arith,
                  named_error name (text "execute: ") template (lib.execute name scope whole) last,
                )
              ]
      ]
