-- ===== src/Reconcile/Deletion.antt =====
-- What a run may delete.
use flux_dev.Api.{ExternalArtifactReference}
use flux_dev.Base.{
  All, List, [], arith, false, if_cases, inl, inr, not, sym, true, ◌&&◌, ◌∙◌, ◌∷◌, ◌≡◌, ◌⊎◌,
}
use flux_dev.Controller.Inventory.{find_orphaned_references, orphans_of, ref_key, ref_keys}
use flux_dev.Controller.Inventory.Laws.{IsPlain, find_orphaned_references_iff, lists, lists_cong}
use flux_dev.Reconcile.Effects.{Deletes, IsPublished, reconciles}
use flux_dev.Reconcile.Ends.{reference_names}
use flux_dev.Reconcile.Publication.{reconcile_object-All, wants}
use flux_dev.Reconcile.Publish.{Params}
use flux_dev.Reconcile.Run.{reconcile_object}
use flux_dev.Reconcile.State.{Effect, Object, collect_garbage, delete_artifact, remove_from_storage}
use flux_dev.Text.{Text, contains_byte, has, ◌==◌}
use flux_dev.Text.Equality.{eq_iff}
use mathlib.Core.Path.{subst}

module _ {C : Type 0} (p : Params C) (o : Object C) where
  -- A key for `lists`.
  abbrev named : Text → Text → ExternalArtifactReference
  named namespace name = record { name = name; namespace = namespace; digest = []; filename = [] }

  abbrev pub MayDelete : Text → Text → Type 0
  MayDelete namespace name =
      (lists (named namespace name) o.generator.inventory ≡ true)
      × ((o.is_deleting ≡ true) ⊎ ((reconciles p o ≡ true) × (wants p o namespace name ≡ false)))

  abbrev pub DeletesUnwanted : Effect C → Type 0
  DeletesUnwanted (remove_from_storage namespace name) = MayDelete namespace name
  DeletesUnwanted (delete_artifact namespace name) = MayDelete namespace name
  DeletesUnwanted e = Unit

  lists-named :
      (namespace name : Text) (refs : List ExternalArtifactReference)
      → All (λ ref. ref.namespace ≡ o.generator.namespace) refs
      → lists (named namespace name) refs
        ≡ (namespace == o.generator.namespace && has name (reference_names refs))
  unfolding has
  lists-named namespace name [] own = ground arith
  lists-named namespace name (ref ∷ refs) own = ground (
    arith,
    own.0,
    lists-named namespace name refs own.1,
    eq_iff name ref.name,
    eq_iff ref.name name,
  )

  lists_self :
      (refs : List ExternalArtifactReference) (all : List ExternalArtifactReference)
      → ((a : ExternalArtifactReference) → lists a refs ≡ true → lists a all ≡ true)
      → All (λ ref. lists ref all ≡ true) refs
  lists_self [] all h = tt
  lists_self (ref ∷ refs) all h = (
    h ref (ground (arith, eq_iff ref.namespace ref.namespace, eq_iff ref.name ref.name)),
    lists_self refs all (λ a found. h a (ground arith)),
  )

  lists_key :
      (ref : ExternalArtifactReference) (refs : List ExternalArtifactReference)
      → lists (named ref.namespace ref.name) refs ≡ lists ref refs
  lists_key ref refs =
      lists_cong (named ref.namespace ref.name) ref refs
        (ground (arith, eq_iff ref.namespace ref.namespace, eq_iff ref.name ref.name))

  whole_inventory :
      (refs : List ExternalArtifactReference)
      → o.is_deleting ≡ true
      → All (λ ref. lists ref o.generator.inventory ≡ true) refs
      → All (Deletes DeletesUnwanted) refs
  whole_inventory [] d h = tt
  whole_inventory (ref ∷ refs) d h =
      let may : MayDelete ref.namespace ref.name =
        (ground (arith, lists_key ref o.generator.inventory, h.0), inl d) in
      ((may, may), whole_inventory refs d h.1)

  orphans_of-All :
      (Q : ExternalArtifactReference → Type 0) (set : List Text)
      (refs : List ExternalArtifactReference)
      → All Q refs
      → All Q (orphans_of set refs)
  unfolding orphans_of
  orphans_of-All Q set [] h = tt
  orphans_of-All Q set (ref ∷ refs) h =
      if_cases (All Q) (has (ref_key ref) set) (λ t. orphans_of-All Q set refs h.1)
        (λ f. (h.0, orphans_of-All Q set refs h.1))

  own-IsPlain :
      (refs : List ExternalArtifactReference)
      → contains_byte o.generator.namespace b'/' ≡ false
      → All (λ ref. ref.namespace ≡ o.generator.namespace) refs
      → All IsPlain refs
  own-IsPlain [] h own = tt
  own-IsPlain (ref ∷ refs) h own =
      (subst (λ ns. contains_byte ns b'/' ≡ false) (sym own.0) h, own-IsPlain refs h own.1)

  orphans-MayDelete :
      (refs orphans : List ExternalArtifactReference)
      → All IsPlain o.generator.inventory
      → contains_byte o.generator.namespace b'/' ≡ false
      → reconciles p o ≡ true
      → IsPublished p o refs
      → All IsPlain orphans
      → All (λ ref. lists ref (find_orphaned_references o.generator.inventory refs) ≡ true) orphans
      → All (Deletes DeletesUnwanted) orphans
  orphans-MayDelete refs [] plain own r pub_ op h = tt
  orphans-MayDelete refs (ref ∷ orphans) plain own r named_ op h =
      let split : (lists ref o.generator.inventory && not (lists ref refs)) ≡ true =
        sym (
          find_orphaned_references_iff o.generator.inventory refs ref plain
            (own-IsPlain refs own named_.1) op.0)
        ∙ h.0 in
      let may : MayDelete ref.namespace ref.name = (
        ground (arith, lists_key ref o.generator.inventory, split),
        inr (
          r,
          ground (
            arith,
            lists_key ref refs,
            split,
            named_.0,
            lists-named ref.namespace ref.name refs named_.1,
          ),
        ),
      ) in
      ((may, may), orphans-MayDelete refs orphans plain own r named_ op.1 h.1)

  orphans_of_IsPlain :
      (refs : List ExternalArtifactReference)
      → All IsPlain o.generator.inventory
      → All IsPlain (find_orphaned_references o.generator.inventory refs)
  unfolding find_orphaned_references
  orphans_of_IsPlain refs plain = orphans_of-All IsPlain (ref_keys refs) o.generator.inventory plain

  trivial_garbage :
      (refs : List ExternalArtifactReference)
      → All (λ ref. DeletesUnwanted (collect_garbage ref.namespace ref.name)) refs
  trivial_garbage [] = tt
  trivial_garbage (ref ∷ refs) = (tt, trivial_garbage refs)

  -- All that a run deletes is listed in the inventory, and the object is being deleted or else
  -- its spec calls for no such artifact. The namespaces hold no slash.
  pub reconcile_object-DeletesUnwanted :
      All IsPlain o.generator.inventory
      → contains_byte o.generator.namespace b'/' ≡ false
      → All DeletesUnwanted (reconcile_object p o).0.effects
  reconcile_object-DeletesUnwanted plain own = reconcile_object-All DeletesUnwanted p o (record {
    event_ = λ v reason. tt;
    patch_ = λ later. tt;
    runs = λ h. record {
      event_ = λ v reason. tt;
      patch_ = λ s. tt;
      make_dir_ = λ dir. tt;
      fetch_ = λ url digest dir. tt;
      apply_ = λ name wanted. tt;
      artifact_status_ = λ name a wanted. tt;
    };
    finalizes = λ d.
        whole_inventory o.generator.inventory d
          (lists_self o.generator.inventory o.generator.inventory (λ a found. found));
    orphans = λ h refs named_.
        orphans-MayDelete refs _ plain own h named_ (orphans_of_IsPlain refs plain)
          (lists_self _ (find_orphaned_references o.generator.inventory refs) (λ a found. found));
    garbage = λ h refs named_. trivial_garbage refs;
  })
