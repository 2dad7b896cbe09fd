-- ===== src/Pipeline/Load/Laws.antt =====
-- What load reads, and how it keys what it has read.
use flux_dev.Base.{
  >>=-eq-ok, List, Option-cases, [], ap, arith, guard, inl, inr, length, length-take, ltb, not, ok,
  ok-injective, suc, sym, take, take_all, wrap, wrap-eq-ok, ℕ, ◌++◌, ◌∙◌, ◌∷◌, ◌≡◌, ◌≤◌,
}
use flux_dev.Dict.{Dict, get, keys, keys-put-Distinct, put, put-fresh}
use flux_dev.Pipeline.Core.{
  Error, File, Scope, Template, at_key, external, grew_over_limit, not_regular, over_limit,
}
use flux_dev.Pipeline.Expr.{eval_key}
use flux_dev.Pipeline.Group.Laws.{keyed}
use flux_dev.Pipeline.Load.{key_items, read_limited}
use flux_dev.Text.{Distinct, Text, text}
use flux_dev.Tree.{Value, string}
use mathlib.Core.Path.{subst}
use mathlib.Core.List.{append_assoc}
use mathlib.Core.List.{append-nil}

guard-le : (limit n : ℕ) (e : Error) {u : Unit {0}} → guard (not (ltb limit n)) e ≡ ok u → n ≤ limit
guard-le limit n e h = ground arith

taken :
    (limit : ℕ) (whole : List ℕ)
    → length (take (suc limit) whole) ≤ limit
    → take (suc limit) whole ≡ whole
taken limit whole h = take_all (suc limit) whole (omega (arith, length-take (suc limit) whole))

-- A read that succeeds returns the whole content of the file, and no more bytes than the limit:
-- nothing is cut off.
pub read_limited-whole :
    (limit : ℕ) (rel : Text) (f : File) (content : List ℕ)
    → read_limited limit rel f ≡ ok content
    → (f.read ≡ ok content) × (length content ≤ limit)
unfolding read_limited
read_limited-whole limit rel f content h =
    let (info, stated, h1) = >>=-eq-ok (wrap external f.stat) _ h in
    let (_, regular, h2) = >>=-eq-ok (guard info.is_regular (not_regular rel)) _ h1 in
    let (_, small, h3) = >>=-eq-ok (guard (not (ltb limit info.size)) (over_limit rel)) _ h2 in
    let (whole, done, h4) = >>=-eq-ok (wrap external f.read) _ h3 in
    let (_, fits, h5) =
      >>=-eq-ok (guard (not (ltb limit (length (take (suc limit) whole)))) (grew_over_limit rel)) _
        h4 in
    let bound = guard-le limit (length (take (suc limit) whole)) _ fits in
    let same = ok-injective h5 in
    (
      wrap-eq-ok external f.read done ∙ ap ok (sym (taken limit whole bound) ∙ same),
      rw (← same) bound,
    )

-- `its` hold the key of each item.
pub data Labelled (key_expr : Template) (scope : Scope)
    : List (Text × Value) → List (Text × Value) → Type 0 where
  none_left : Labelled key_expr scope [] []
  one_more :
      {rel k : Text} {v : Value} {its keyed : List (Text × Value)}
      → eval_key key_expr ((text "path", string rel) ∷ []) scope ≡ ok k
      → Labelled key_expr scope its keyed
      → Labelled key_expr scope ((rel, v) ∷ its) ((k, v) ∷ keyed)

-- A keyed load that succeeds, on from entries with distinct keys, adds to them every item in
-- order, each under the key computed for it, and no two entries share a key.
pub key_items-all :
    (key_expr : Template) (scope : Scope) (its : List (Text × Value)) (start out : Dict Value)
    → Distinct (keys start)
    → key_items key_expr scope its start ≡ ok out
    → (keyed : List (Text × Value)) × Labelled key_expr scope its keyed
      × (out ≡ start ++ keyed)
      × Distinct (keys out)
unfolding key_items
key_items-all key_expr scope [] start out d h =
    let same = ok-injective h in
    ([], none_left, ground (arith, append-nil start), subst (λ m. Distinct (keys m)) same d)
key_items-all key_expr scope ((rel, v) ∷ its) start out d h =
    let (key, computed, h1) =
      >>=-eq-ok
        (wrap (at_key (text "keyExpr") rel)
          (eval_key key_expr ((text "path", string rel) ∷ []) scope))
        _ h in
    let answer : eval_key key_expr ((text "path", string rel) ∷ []) scope ≡ ok key =
      wrap-eq-ok (at_key (text "keyExpr") rel) _ computed in
    elim (Option-cases (get key start)) [
      | inr (w, taken_key) ↦ absurd (ground (arith, h1))
      | inl fresh ↦
          let (keyed, all, same, distinct) =
            key_items-all key_expr scope its (put key v start) out (keys-put-Distinct key v start d)
              (ground (arith, h1)) in
          (
            (key, v) ∷ keyed,
            one_more answer all,
            same
                ∙ ap (λ m. m ++ keyed) (put-fresh key v start fresh)
                ∙ append_assoc start ((key, v) ∷ []) keyed,
            distinct,
          )
    ]
