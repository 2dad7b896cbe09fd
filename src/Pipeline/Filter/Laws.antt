-- ===== src/Pipeline/Filter/Laws.antt =====
-- What filter keeps.
use flux_dev.Base.{
  >>=-eq-ok, Bool, List, Option, Result, [], ap, arith, err, false, if◌then◌else◌, none, ok, refl,
  suc, sym, wrap, wrap-eq-ok, ℕ, ◌↔◌, ◌∙◌, ◌∷◌, ◌≡◌,
}
use flux_dev.Pipeline.Core.{Error, Scope, Template, at_index, poll, poll-ok}
use flux_dev.Pipeline.Filter.{eval_predicate, filter_items, item_bindings}
use flux_dev.Text.{Text, text}
use flux_dev.Tree.{Value}

-- The items that a test by position and value selects, in order.
abbrev pub select : (ℕ → Value → Bool) → ℕ → List Value → List Value
select test i [] = []
select test i (v ∷ vs) = if test i v then v ∷ select test (suc i) vs else select test (suc i) vs

-- The answer of `where` for an item of a list, with an error read as false.
abbrev pub holds : Result Error Bool → Bool
holds (ok b) = b
holds (err e) = false

abbrev pub item_test : Template → Scope → ℕ → Value → Bool
item_test condition scope i v = holds (eval_predicate condition (item_bindings v i) scope)

-- No predicate failed, and no poll was cancelled.
abbrev pub AllDecided : (ℕ → Option Text) → Template → Scope → ℕ → List Value → Type 0
AllDecided polls condition scope i [] = Unit {0}
AllDecided polls condition scope i (v ∷ vs) =
    (polls i ≡ none)
    × ((b : Bool) × (eval_predicate condition (item_bindings v i) scope ≡ ok b))
    × AllDecided polls condition scope (suc i) vs

filter_items_sound :
    (polls : ℕ → Option Text) (condition : Template) (scope : Scope) (i : ℕ) (vs out : List Value)
    → filter_items polls condition scope i vs ≡ ok out
    → AllDecided polls condition scope i vs × (out ≡ select (item_test condition scope) i vs)
unfolding filter_items
filter_items_sound polls condition scope i [] out h = (tt, ground arith)
filter_items_sound polls condition scope i (v ∷ vs) out h =
    let (u, live, h1) = >>=-eq-ok (poll (polls i)) _ h in
    let (keep, decided, h2) =
      >>=-eq-ok
        (wrap (at_index (text "where") i) (eval_predicate condition (item_bindings v i) scope)) _
        h1 in
    let (rest, later, h3) = >>=-eq-ok (filter_items polls condition scope (suc i) vs) _ h2 in
    let (all, kept) = filter_items_sound polls condition scope (suc i) vs rest later in
    let answer = wrap-eq-ok (at_index (text "where") i) _ decided in
    ((poll-ok (polls i) live, (keep, answer), all), ground (arith, answer, h3, kept))

filter_items_complete :
    (polls : ℕ → Option Text) (condition : Template) (scope : Scope) (i : ℕ) (vs : List Value)
    → AllDecided polls condition scope i vs
    → filter_items polls condition scope i vs ≡ ok (select (item_test condition scope) i vs)
unfolding filter_items
filter_items_complete polls condition scope i [] h = refl
filter_items_complete polls condition scope i (v ∷ vs) (live, (b, answer), all) =
    ground (arith, live, answer, filter_items_complete polls condition scope (suc i) vs all)

-- A filter of a list succeeds exactly when no poll is cancelled and `where` is decided for every
-- item, and then keeps, in order, the items for which it is true.
pub filter_items_iff :
    (polls : ℕ → Option Text) (condition : Template) (scope : Scope) (i : ℕ) (vs out : List Value)
    → (filter_items polls condition scope i vs ≡ ok out)
      ↔ (AllDecided polls condition scope i vs × (out ≡ select (item_test condition scope) i vs))
filter_items_iff polls condition scope i vs out = (
  filter_items_sound polls condition scope i vs out,
  λ h. filter_items_complete polls condition scope i vs h.0 ∙ ap ok (sym h.1),
)
