-- ===== src/Pipeline/Compile/Sound.antt =====
-- A compiled pipeline never refers to something that is missing when it runs.
use flux_dev.Base.{
  Bool, List, Option, Result, [], arith, err, false, none, ok, refl, some, suc, true, wrap, ℕ,
  ◌>>=◌, ◌∷◌, ◌≡◌,
}
use flux_dev.Dict.{Dict, put}
use flux_dev.Pipeline.Core.{
  Error, Libraries, Scope, Template, at_field, at_index, at_key, at_step, external, key_expr_is_nil,
  no_artifact, poll, undefined, unsupported_format, value_at,
}
use flux_dev.Pipeline.Expr.{eval_key, render}
use flux_dev.Pipeline.Filter.{
  entry_bindings, eval_predicate, filter_entries, filter_items, item_bindings, truthy_string,
}
use flux_dev.Pipeline.Group.{add_to_bucket, group_items}
use flux_dev.Pipeline.MapVerb.{map_entries, map_items, render_item}
use flux_dev.Text.{Text, text}
use flux_dev.Tree.{Value}

-- The errors of a reference that leads nowhere: an output that is not defined, an alias with no
-- artifact, a key template that is nil, a format that is none.
abbrev pub dangles : Error → Bool
dangles (at_step name e) = dangles e
dangles (at_field label e) = dangles e
dangles (at_index label i e) = dangles e
dangles (at_key label k e) = dangles e
dangles (undefined from) = true
dangles (no_artifact alias) = true
dangles (unsupported_format format) = true
dangles key_expr_is_nil = true
dangles e = false

abbrev pub dangling {ℓ} : {A : Type ℓ} → Result Error A → Bool
dangling (ok a) = false
dangling (err e) = dangles e

pub dangling-bind {ℓ κ} :
    {A : Type ℓ} {B : Type κ} (m : Result Error A) (f : A → Result Error B)
    → dangling m ≡ false
    → ((a : A) → m ≡ ok a → dangling (f a) ≡ false)
    → dangling (m >>= f) ≡ false
dangling-bind (ok a) f h k = k a refl
dangling-bind (err e) f h k = h

pub dangling-external {ℓ} : {A : Type ℓ} (m : Result Text A) → dangling (wrap external m) ≡ false
dangling-external (ok a) = refl
dangling-external (err e) = refl

pub dangling-poll : (p : Option Text) → dangling (poll p) ≡ false
dangling-poll none = refl
dangling-poll (some message) = refl

pub eval_key_sound : (t : Template) (b : Dict Value) (s : Scope) → dangling (eval_key t b s) ≡ false
unfolding eval_key
eval_key_sound t b s = ground arith

pub eval_predicate_sound :
    (t : Template) (b : Dict Value) (s : Scope) → dangling (eval_predicate t b s) ≡ false
unfolding eval_predicate render truthy_string
eval_predicate_sound t b s = ground arith

pub render_item_sound :
    (lib : Libraries) (t : Template) (b : Dict Value) (s : Scope)
    → dangling (render_item lib t b s) ≡ false
unfolding render_item render
render_item_sound lib t b s = ground arith

pub filter_items_sound :
    (polls : ℕ → Option Text) (t : Template) (s : Scope) (i : ℕ) (vs : List Value)
    → dangling (filter_items polls t s i vs) ≡ false
unfolding filter_items
filter_items_sound polls t s i [] = refl
filter_items_sound polls t s i (v ∷ vs) =
    ground
      (arith, filter_items_sound polls t s (suc i) vs, eval_predicate_sound t (item_bindings v i) s)

pub filter_entries_sound :
    (polls : ℕ → Option Text) (t : Template) (s : Scope) (m : Dict Value) (i : ℕ) (ks : List Text)
    (out : Dict Value)
    → dangling (filter_entries polls t s m i ks out) ≡ false
unfolding filter_entries
filter_entries_sound polls t s m i [] out = refl
filter_entries_sound polls t s m i (k ∷ ks) out = ground (
  arith,
  filter_entries_sound polls t s m (suc i) ks (put k (value_at k m) out),
  filter_entries_sound polls t s m (suc i) ks out,
  eval_predicate_sound t (entry_bindings (value_at k m) k) s,
)

pub map_items_sound :
    (lib : Libraries) (polls : ℕ → Option Text) (t : Template) (s : Scope) (i : ℕ) (vs : List Value)
    → dangling (map_items lib polls t s i vs) ≡ false
unfolding map_items
map_items_sound lib polls t s i [] = refl
map_items_sound lib polls t s i (v ∷ vs) =
    ground (
      arith,
      map_items_sound lib polls t s (suc i) vs,
      render_item_sound lib t (item_bindings v i) s,
    )

pub map_entries_sound :
    (lib : Libraries) (polls : ℕ → Option Text) (t : Template) (s : Scope) (m : Dict Value) (i : ℕ)
    (ks : List Text) (out : Dict Value)
    → dangling (map_entries lib polls t s m i ks out) ≡ false
unfolding map_entries
map_entries_sound lib polls t s m i [] out = refl
map_entries_sound lib polls t s m i (k ∷ ks) out =
    dangling-bind (poll (polls i)) _ (dangling-poll (polls i)) λ _ _.
      dangling-bind
        (wrap (at_key (text "expr") k) (render_item lib t (entry_bindings (value_at k m) k) s)) _
        (ground (arith, render_item_sound lib t (entry_bindings (value_at k m) k) s))
        λ val _. map_entries_sound lib polls t s m (suc i) ks (put k val out)

pub group_items_sound :
    (polls : ℕ → Option Text) (t : Template) (s : Scope) (i : ℕ) (vs : List Value)
    (out : Dict Value)
    → dangling (group_items polls t s i vs out) ≡ false
unfolding group_items
group_items_sound polls t s i [] out = refl
group_items_sound polls t s i (v ∷ vs) out =
    dangling-bind (poll (polls i)) _ (dangling-poll (polls i)) λ _ _.
      dangling-bind (wrap (at_index (text "keyExpr") i) (eval_key t (item_bindings v i) s)) _
        (ground (arith, eval_key_sound t (item_bindings v i) s))
        λ key _. group_items_sound polls t s (suc i) vs (add_to_bucket key v out)
