-- ===== src/Pipeline/Group/Laws.antt =====
-- What group puts into each bucket.
use flux_dev.Base.{
  >>=-eq-ok, Bool-cases, List, Option, [], arith, if◌then◌else◌, inl, inr, none, ok, suc, wrap,
  wrap-eq-ok, ℕ, ◌++◌, ◌∷◌, ◌≡◌,
}
use flux_dev.Dict.{Dict, get, get-put}
use flux_dev.Pipeline.Core.{Scope, Template, at_index, poll, poll-ok}
use flux_dev.Pipeline.Expr.{eval_key}
use flux_dev.Pipeline.Filter.{item_bindings}
use flux_dev.Pipeline.Group.{add_to_bucket, bucket_of, group_items}
use flux_dev.Text.{Text, text, ◌==◌}
use flux_dev.Text.Equality.{eq_iff}
use flux_dev.Tree.{Value, items-items_of, items_of, list}
use mathlib.Core.List.{append-nil, append_assoc}

-- The items whose key is `k`, in order.
abbrev pub keyed : Text → List (Text × Value) → List Value
keyed k [] = []
keyed k ((j, v) ∷ its) = if j == k then v ∷ keyed k its else keyed k its

-- The key of every item, where all of them have one.
pub data Keyed (polls : ℕ → Option Text) (key_expr : Template) (scope : Scope)
    : ℕ → List Value → List (Text × Value) → Type 0 where
  none_left : {i : ℕ} → Keyed polls key_expr scope i [] []
  one_more :
      {i : ℕ} {v : Value} {vs : List Value} {k : Text} {its : List (Text × Value)}
      → polls i ≡ none
      → eval_key key_expr (item_bindings v i) scope ≡ ok k
      → Keyed polls key_expr scope (suc i) vs its
      → Keyed polls key_expr scope i (v ∷ vs) ((k, v) ∷ its)

bucket-add :
    (j k : Text) (v : Value) (result : Dict Value)
    → bucket_of (get j (add_to_bucket k v result))
      ≡ (if k == j then bucket_of (get j result) ++ v ∷ [] else bucket_of (get j result))
unfolding add_to_bucket
bucket-add j k v result = elim (Bool-cases (k == j)) [
  | inl same ↦ ground (
    arith,
    get-put k j (list (items_of (bucket_of (get k result) ++ v ∷ []))) result,
    eq_iff k j,
    items-items_of (bucket_of (get k result) ++ v ∷ []),
  )
  | inr other ↦
      ground (arith, get-put k j (list (items_of (bucket_of (get k result) ++ v ∷ []))) result)
]

-- A group that succeeds has computed a key for every item, and its bucket at each key holds, in
-- order, what was there before and the items with that key.
pub group_items-buckets :
    (polls : ℕ → Option Text) (key_expr : Template) (scope : Scope) (i : ℕ) (vs : List Value)
    (start out : Dict Value)
    → group_items polls key_expr scope i vs start ≡ ok out
    → (its : List (Text × Value)) × Keyed polls key_expr scope i vs its
      × ((k : Text) → bucket_of (get k out) ≡ bucket_of (get k start) ++ keyed k its)
unfolding group_items
group_items-buckets polls key_expr scope i [] start out h =
    ([], none_left, λ k. ground (arith, append-nil (bucket_of (get k start))))
group_items-buckets polls key_expr scope i (v ∷ vs) start out h =
    let (u, live, h1) = >>=-eq-ok (poll (polls i)) _ h in
    let (key, computed, h2) =
      >>=-eq-ok (wrap (at_index (text "keyExpr") i) (eval_key key_expr (item_bindings v i) scope)) _
        h1 in
    let (its, all, buckets) =
      group_items-buckets polls key_expr scope (suc i) vs (add_to_bucket key v start) out h2 in
    (
      (key, v) ∷ its,
      one_more (poll-ok (polls i) live) (wrap-eq-ok (at_index (text "keyExpr") i) _ computed) all,
      λ k. ground (
        arith,
        buckets k,
        bucket-add k key v start,
        append_assoc (bucket_of (get k start)) (v ∷ []) (keyed k its),
      ),
    )
