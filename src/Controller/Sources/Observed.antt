-- ===== src/Controller/Sources/Observed.antt =====
-- What observeSources returns.
use flux_dev.Api.{ManifestGenerator, SourceReference}
use flux_dev.Base.{
  >>=-eq-ok, All, Bool-cases, List, [], ap, arith, false, inl, inr, none, ok, ok-injective, some,
  sym, true, ◌∙◌, ◌∷◌, ◌≡◌, ◌⊎◌,
}
use flux_dev.Controller.Pipeline.{alias_list}
use flux_dev.Controller.Sources.{
  Cluster, ObservedSource, observe_from, observe_source, observe_sources,
}
use flux_dev.Dict.{Dict, get, get-put, put}
use flux_dev.Text.{Distinct, Text, has}
use flux_dev.Text.Equality.{eq_refl}

observe_from-keeps :
    (cluster : Cluster) (own : Text) (srcs : List SourceReference) (acc out : Dict ObservedSource)
    (k : Text)
    → has k (alias_list srcs) ≡ false
    → observe_from cluster own srcs acc ≡ ok out
    → get k out ≡ get k acc
unfolding observe_from alias_list has
observe_from-keeps cluster own [] acc out k gone h = ap (λ m. get k m) (sym (ok-injective h))
observe_from-keeps cluster own (src ∷ srcs) acc out k gone h =
    let (os, _, rest) = >>=-eq-ok (observe_source cluster own src) _ h in
    observe_from-keeps cluster own srcs (put src.alias os acc) out k (ground arith) rest
    ∙ ground (arith, get-put src.alias k os acc)

-- The source was found, and its alias holds what was observed of it.
abbrev pub IsObserved : Cluster → Text → Dict ObservedSource → SourceReference → Type 0
IsObserved cluster own out src =
    (os : ObservedSource) × (observe_source cluster own src ≡ ok os) × (get src.alias out ≡ some os)

observe_from-IsObserved :
    (cluster : Cluster) (own : Text) (srcs : List SourceReference) (acc out : Dict ObservedSource)
    → Distinct (alias_list srcs)
    → observe_from cluster own srcs acc ≡ ok out
    → All (IsObserved cluster own out) srcs
unfolding observe_from alias_list
observe_from-IsObserved cluster own [] acc out d h = tt
observe_from-IsObserved cluster own (src ∷ srcs) acc out d h =
    let (os, seen, rest) = >>=-eq-ok (observe_source cluster own src) _ h in
    (
      (
        os,
        seen,
        observe_from-keeps cluster own srcs (put src.alias os acc) out src.alias d.0 rest
            ∙ ground (arith, get-put src.alias src.alias os acc, eq_refl src.alias),
      ),
      observe_from-IsObserved cluster own srcs (put src.alias os acc) out d.1 rest,
    )

-- When observeSources succeeds on sources with distinct aliases, every source of the spec was found
-- with an artifact, its alias holds what was observed of it, and no other name is in the result.
pub observe_sources-IsObserved :
    (cluster : Cluster) (mg : ManifestGenerator) (out : Dict ObservedSource) (k : Text)
    → Distinct (alias_list mg.spec.sources)
    → observe_sources cluster mg ≡ ok out
    → All (IsObserved cluster mg.namespace out) mg.spec.sources
      × ((has k (alias_list mg.spec.sources) ≡ true) ⊎ (get k out ≡ none))
unfolding observe_sources get
observe_sources-IsObserved cluster mg out k d h = (
  observe_from-IsObserved cluster mg.namespace mg.spec.sources [] out d h,
  elim (Bool-cases (has k (alias_list mg.spec.sources))) [
    | inl there ↦ inl there
    | inr gone ↦ inr (observe_from-keeps cluster mg.namespace mg.spec.sources [] out k gone h)
  ],
)
