-- ===== src/Pipeline/Compile/LoadSound.antt =====
-- A load leaves no reference open.
use flux_dev.Api.{load_format_json, load_format_raw, load_format_text, load_format_yaml}
use flux_dev.Base.{
  List, Option, Option-cases, [], arith, false, inl, inr, is_some, refl, suc, true, wrap, ℕ, ◌∷◌,
  ◌≡◌,
}
use flux_dev.Dict.{Dict, get, put}
use flux_dev.Pipeline.Compile.Sound.{dangling, dangling-bind, dangling-external, eval_key_sound}
use flux_dev.Pipeline.Core.{File, Libraries, Scope, Template, at_key, external}
use flux_dev.Pipeline.Expr.{eval_key}
use flux_dev.Pipeline.Load.{
  CompiledLoad, decode, expand_glob, formats, key_items, max_load_file_bytes, read_all, read_decode,
  read_limited, shape_items,
}
use flux_dev.Text.{Text, has, text}
use flux_dev.Text.Equality.{eq_comm}
use flux_dev.Tree.{Value, string}

read_limited_sound :
    (limit : ℕ) (rel : Text) (f : File) → dangling (read_limited limit rel f) ≡ false
unfolding read_limited
read_limited_sound limit rel f = ground arith

decode_sound :
    (lib : Libraries) (format : Text) (content : List ℕ)
    → has format formats ≡ true
    → dangling (decode lib format content) ≡ false
unfolding decode has
decode_sound lib format content h = ground (
  arith,
  eq_comm format load_format_yaml,
  eq_comm format load_format_json,
  eq_comm format load_format_text,
  eq_comm format load_format_raw,
  dangling-external (lib.parse_yaml content),
  dangling-external (lib.parse_json content),
)

pub read_decode_sound :
    (lib : Libraries) (dir rel format : Text)
    → has format formats ≡ true
    → dangling (read_decode lib dir rel format) ≡ false
unfolding read_decode
read_decode_sound lib dir rel format h =
    dangling-bind (wrap external (lib.open_file dir rel)) _
      (dangling-external (lib.open_file dir rel))
      λ f _.
        dangling-bind (read_limited max_load_file_bytes rel f) _
          (read_limited_sound max_load_file_bytes rel f) λ c _. decode_sound lib format c h

pub read_all_sound :
    (lib : Libraries) (polls : ℕ → Option Text) (dir format : Text) (i : ℕ) (rels : List Text)
    → has format formats ≡ true
    → dangling (read_all lib polls dir format i rels) ≡ false
unfolding read_all
read_all_sound lib polls dir format i [] h = refl
read_all_sound lib polls dir format i (rel ∷ rels) h = ground (
  arith,
  read_decode_sound lib dir rel format h,
  read_all_sound lib polls dir format (suc i) rels h,
)

pub key_items_sound :
    (t : Template) (s : Scope) (its : List (Text × Value)) (out : Dict Value)
    → dangling (key_items t s its out) ≡ false
unfolding key_items
key_items_sound t s [] out = refl
key_items_sound t s ((rel, v) ∷ its) out =
    dangling-bind
      (wrap (at_key (text "keyExpr") rel) (eval_key t ((text "path", string rel) ∷ []) s)) _
      (ground (arith, eval_key_sound t ((text "path", string rel) ∷ []) s))
      λ key _. elim (Option-cases (get key out)) [
        | inl fresh ↦ ground (arith, key_items_sound t s its (put key v out))
        | inr (w, taken) ↦ ground arith
      ]

pub expand_glob_sound :
    (lib : Libraries) (dir pattern : Text) → dangling (expand_glob lib dir pattern) ≡ false
unfolding expand_glob
expand_glob_sound lib dir pattern = ground arith

pub shape_items_sound :
    (c : CompiledLoad) (s : Scope) (its : List (Text × Value))
    → is_some c.key_expr ≡ c.as_map
    → dangling (shape_items c s its) ≡ false
unfolding shape_items
shape_items_sound c s its h = elim (Option-cases c.key_expr) [
  | inl missing ↦ ground arith
  | inr (t, there) ↦ ground (arith, key_items_sound t s its [])
]
