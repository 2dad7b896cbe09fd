-- ===== src/Pipeline/Compile/Outputs.antt =====
-- The outputs that a run leaves behind.
use flux_dev.Api.{PipelineStep}
use flux_dev.Base.{
  >>=-eq-ok, List, [], ap, arith, false, none, ok, ok-injective, refl, suc, sym, true, wrap,
  wrap-eq-ok, ℕ, ◌++◌, ◌||◌, ◌∙◌, ◌∷◌, ◌≡◌,
}
use flux_dev.Dict.{Dict, get, get-put, has-keys-put, keys, put}
use flux_dev.Pipeline.Compile.{Step, compile, eval_step, run, run_from, step_name}
use flux_dev.Pipeline.Compile.Wiring.{AllWired, compile-AllWired}
use flux_dev.Pipeline.Core.{Context, Libraries, Scope, at_step, poll, poll-ok}
use flux_dev.Text.{Text, has}
use flux_dev.Text.Equality.{eq_iff}
use flux_dev.Tree.{Value}
use mathlib.Core.List.{append-nil}
use mathlib.Core.List.{append_assoc}
use mathlib.Core.List

keys-put_fresh :
    (k : Text) (v : Value) (m : Dict Value)
    → has k (keys m) ≡ false
    → keys (put k v m) ≡ keys m ++ k ∷ []
unfolding put keys has
keys-put_fresh k v [] h = refl
keys-put_fresh k v ((j, w) ∷ m) h = ground (arith, keys-put_fresh k v m)

-- The output of the first step, and the run of the others from there.
run_from-cons :
    (lib : Libraries) (ctx : Context) (n : ℕ) (p : Step) (steps : List Step) (s : Scope)
    (out : Dict Value)
    → run_from lib ctx n (p ∷ steps) s ≡ ok out
    → (v : Value) × (eval_step lib (ctx.before_item n) p s ≡ ok v)
      × (run_from lib ctx (suc n) steps (record s { outputs = put (step_name p) v s.outputs })
          ≡ ok out)
unfolding run_from
run_from-cons lib ctx n p steps s out h =
    let (u, live, h1) = >>=-eq-ok (poll (ctx.before_step n)) _ h in
    let (v, done, h2) =
      >>=-eq-ok (wrap (at_step (step_name p)) (eval_step lib (ctx.before_item n) p s)) _ h1 in
    (v, wrap-eq-ok (at_step (step_name p)) _ done, h2)

run_from-nil :
    (lib : Libraries) (ctx : Context) (n : ℕ) (s : Scope) (out : Dict Value)
    → run_from lib ctx n [] s ≡ ok out
    → out ≡ s.outputs
unfolding run_from
run_from-nil lib ctx n s out h = sym (ok-injective h)

run_from-live :
    (lib : Libraries) (ctx : Context) (n : ℕ) (p : Step) (steps : List Step) (s : Scope)
    (out : Dict Value)
    → run_from lib ctx n (p ∷ steps) s ≡ ok out
    → ctx.before_step n ≡ none
unfolding run_from
run_from-live lib ctx n p steps s out h =
    let (u, live, h1) = >>=-eq-ok (poll (ctx.before_step n)) _ h in poll-ok (ctx.before_step n) live

run_from-step :
    (lib : Libraries) (ctx : Context) (n : ℕ) (p : Step) (steps : List Step) (s : Scope) (v : Value)
    (out : Dict Value)
    → ctx.before_step n ≡ none
    → eval_step lib (ctx.before_item n) p s ≡ ok v
    → run_from lib ctx (suc n) steps (record s { outputs = put (step_name p) v s.outputs }) ≡ ok out
    → run_from lib ctx n (p ∷ steps) s ≡ ok out
unfolding run_from
run_from-step lib ctx n p steps s v out live done later = rw (live, done) later

run_from-keys :
    (lib : Libraries) (ctx : Context) (aliases seen : List Text) (n : ℕ) (steps : List Step)
    (s : Scope) (out : Dict Value)
    → AllWired aliases seen steps
    → ((k : Text) → has k (keys s.outputs) ≡ has k seen)
    → run_from lib ctx n steps s ≡ ok out
    → keys out ≡ keys s.outputs ++ List.map step_name steps
run_from-keys lib ctx aliases seen n [] s out w same h =
    ap keys (run_from-nil lib ctx n s out h) ∙ sym (append-nil (keys s.outputs))
run_from-keys lib ctx aliases seen n (p ∷ steps) s out w same h =
    let (v, done, later) = run_from-cons lib ctx n p steps s out h in
    run_from-keys lib ctx aliases (step_name p ∷ seen) (suc n) steps
      (record s { outputs = put (step_name p) v s.outputs }) out w.3
      (λ k. unfold has in ground (arith, has-keys-put k (step_name p) v s.outputs, same k)) later
    ∙ ap (λ ks. ks ++ List.map step_name steps)
        (keys-put_fresh (step_name p) v s.outputs (same (step_name p) ∙ w.1))
    ∙ append_assoc (keys s.outputs) (step_name p ∷ []) (List.map step_name steps)

-- A run of a compiled pipeline that succeeds publishes one output for each step of the spec, in
-- the order of the spec.
pub run-compile-keys :
    (lib : Libraries) (ctx : Context) (spec : List PipelineStep) (aliases : List Text)
    (steps : List Step) (sources : Dict Text) (values out : Dict Value)
    → compile lib spec aliases ≡ ok steps
    → run lib ctx steps sources values ≡ ok out
    → keys out ≡ List.map (λ ps. ps.name) spec
unfolding run keys has
run-compile-keys lib ctx spec aliases steps sources values out compiled h =
    let (wired, names) = compile-AllWired lib spec aliases steps compiled in
    run_from-keys lib ctx aliases [] 0 steps
      (record { sources = sources; values = values; outputs = [] }) out wired (λ k. refl) h
    ∙ names

-- Later steps leave the outputs of earlier ones as they are.
run_from-keeps :
    (lib : Libraries) (ctx : Context) (aliases seen : List Text) (n : ℕ) (steps : List Step)
    (s : Scope) (out : Dict Value) (k : Text)
    → AllWired aliases seen steps
    → has k seen ≡ true
    → run_from lib ctx n steps s ≡ ok out
    → get k out ≡ get k s.outputs
run_from-keeps lib ctx aliases seen n [] s out k w old h =
    ap (get k) (run_from-nil lib ctx n s out h)
run_from-keeps lib ctx aliases seen n (p ∷ steps) s out k w old h =
    let (v, done, later) = run_from-cons lib ctx n p steps s out h in
    run_from-keeps lib ctx aliases (step_name p ∷ seen) (suc n) steps
      (record s { outputs = put (step_name p) v s.outputs }) out k w.3 (unfold has in ground arith)
      later
    ∙ ground (arith, get-put (step_name p) k v s.outputs, eq_iff (step_name p) k, w.1)

run_from-append :
    (lib : Libraries) (ctx : Context) (aliases seen : List Text) (n : ℕ) (steps more : List Step)
    (s : Scope) (out : Dict Value)
    → AllWired aliases seen (steps ++ more)
    → run_from lib ctx n (steps ++ more) s ≡ ok out
    → (mid : Dict Value) × (run_from lib ctx n steps s ≡ ok mid)
      × ((k : Text)
          → (has k seen || has k (List.map step_name steps)) ≡ true
          → get k out ≡ get k mid)
run_from-append lib ctx aliases seen n [] more s out w h = (
  s.outputs,
  unfold run_from in refl,
  λ k old. run_from-keeps lib ctx aliases seen n more s out k w (unfold has in ground arith) h,
)
run_from-append lib ctx aliases seen n (p ∷ steps) more s out w h =
    let (v, done, later) = run_from-cons lib ctx n p (steps ++ more) s out h in
    let (mid, ran, same) =
      run_from-append lib ctx aliases (step_name p ∷ seen) (suc n) steps more
        (record s { outputs = put (step_name p) v s.outputs }) out w.3 later in
    (
      mid,
      run_from-step lib ctx n p steps s v mid (run_from-live lib ctx n p (steps ++ more) s out h)
          done ran,
      λ k old. same k (unfold has in ground arith),
    )

-- When a pipeline that compiles runs to its end, running a prefix of its steps alone succeeds too,
-- and gives each step of the prefix the same output: a step depends on the steps above it only.
pub run-prefix :
    (lib : Libraries) (ctx : Context) (spec : List PipelineStep) (aliases : List Text)
    (steps more : List Step) (sources : Dict Text) (values out : Dict Value) (k : Text)
    → compile lib spec aliases ≡ ok (steps ++ more)
    → run lib ctx (steps ++ more) sources values ≡ ok out
    → has k (List.map step_name steps) ≡ true
    → (mid : Dict Value) × (run lib ctx steps sources values ≡ ok mid) × (get k out ≡ get k mid)
unfolding run
run-prefix lib ctx spec aliases steps more sources values out k compiled h there =
    let (mid, ran, same) =
      run_from-append lib ctx aliases [] 0 steps more
        (record { sources = sources; values = values; outputs = [] }) out
        (compile-AllWired lib spec aliases (steps ++ more) compiled).0 h in
    (mid, ran, same k (unfold has in ground arith))
