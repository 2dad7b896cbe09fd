-- ===== src/Pipeline/MapVerb/Laws.antt =====
-- What map keeps of the shape of its input.
use flux_dev.Base.{
  >>=-eq-ok, List, Option, [], ap, length, none, ok, ok-injective, refl, suc, wrap, wrap-eq-ok, ℕ,
  ◌∷◌, ◌≡◌,
}
use flux_dev.Dict.{Dict}
use flux_dev.Pipeline.Core.{Libraries, Scope, Template, at_index, poll, poll-ok, value_at}
use flux_dev.Pipeline.Filter.{entry_bindings, item_bindings}
use flux_dev.Pipeline.MapVerb.{map_items, render_item}
use flux_dev.Text.{Text, text}
use flux_dev.Tree.{Value}
use mathlib.Core.Path.{subst}

-- `out` is the rendering of each item, in order.
pub data Rendered (lib : Libraries) (polls : ℕ → Option Text) (expr : Template) (scope : Scope)
    : ℕ → List Value → List Value → Type 0 where
  none_left : {i : ℕ} → Rendered lib polls expr scope i [] []
  one_more :
      {i : ℕ} {v w : Value} {vs ws : List Value}
      → polls i ≡ none
      → render_item lib expr (item_bindings v i) scope ≡ ok w
      → Rendered lib polls expr scope (suc i) vs ws
      → Rendered lib polls expr scope i (v ∷ vs) (w ∷ ws)

-- A map over a list that succeeds has rendered every item at its place, and returns a list of the
-- same length.
pub map_items-all :
    (lib : Libraries) (polls : ℕ → Option Text) (expr : Template) (scope : Scope) (i : ℕ)
    (vs out : List Value)
    → map_items lib polls expr scope i vs ≡ ok out
    → Rendered lib polls expr scope i vs out × (length out ≡ length vs)
unfolding map_items
map_items-all lib polls expr scope i [] out h =
    subst (λ ws. Rendered lib polls expr scope i [] ws × (length ws ≡ 0)) (ok-injective h)
      (none_left, refl)
map_items-all lib polls expr scope i (v ∷ vs) out h =
    let (u, live, h1) = >>=-eq-ok (poll (polls i)) _ h in
    let (w, rendered, h2) =
      >>=-eq-ok (wrap (at_index (text "expr") i) (render_item lib expr (item_bindings v i) scope)) _
        h1 in
    let (rest, later, h3) = >>=-eq-ok (map_items lib polls expr scope (suc i) vs) _ h2 in
    let (all, same) = map_items-all lib polls expr scope (suc i) vs rest later in
    subst (λ ws. Rendered lib polls expr scope i (v ∷ vs) ws × (length ws ≡ suc (length vs)))
      (ok-injective h3)
      (
        one_more (poll-ok (polls i) live) (wrap-eq-ok (at_index (text "expr") i) _ rendered) all,
        ap suc same,
      )

-- `val` is the rendering of the entry of `m` at `k`.
abbrev pub RendersEntry : Libraries → Template → Scope → Dict Value → Text → Value → Type 0
RendersEntry lib expr scope m k val =
    render_item lib expr (entry_bindings (value_at k m) k) scope ≡ ok val
