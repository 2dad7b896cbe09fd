-- ===== src/Reconcile/Guarded.antt =====
-- An object over its whole life: the runs of the reconciler, and the requests that they have sent.
use flux_dev.Api.{ExternalArtifactReference, ManifestGeneratorSpec}
use flux_dev.Base.{All, All-map, List, [], false, inl, inr, refl, sym, true, ℕ, ◌++◌, ◌∷◌, ◌≡◌, ◌⊎◌}
use flux_dev.Dict.{Dict}
use flux_dev.Reconcile.Lifecycle.{Lifecycle, Move-cases, lifecycle, reconcile_object-Move}
use flux_dev.Reconcile.Publish.{Params}
use flux_dev.Reconcile.Release.{deletions, reconcile_object-deletions}
use flux_dev.Reconcile.Run.{reconcile_object}
use flux_dev.Reconcile.State.{
  Effect, Object, Trace, delete_artifact, patch_status, remove_from_storage,
}
use flux_dev.Reconcile.Toolkit.{IsToolkit, Toolkit}
use flux_dev.Text.{Text}
use mathlib.Core.Path.{subst}

module _ {C : Type 0} where
  -- The request is one of the trace.
  abbrev pub Sent : Effect C → Trace C → Type 0
  Sent e [] = ⊥
  Sent e (x ∷ xs) = (e ≡ x) ⊎ Sent e xs

  Sent-append : (e : Effect C) (xs ys : Trace C) → Sent e xs → Sent e (xs ++ ys)
  Sent-append e [] ys h = absurd h
  Sent-append e (x ∷ xs) ys (inl same) = inl same
  Sent-append e (x ∷ xs) ys (inr h) = inr (Sent-append e xs ys h)

  Sent-after : (e : Effect C) (xs ys : Trace C) → Sent e ys → Sent e (xs ++ ys)
  Sent-after e [] ys h = h
  Sent-after e (x ∷ xs) ys h = inr (Sent-after e xs ys h)

  -- The deletion of an artifact has been asked for, from the storage and from the API server.
  abbrev pub Asked : Trace C → ExternalArtifactReference → Type 0
  Asked history ref =
      Sent (remove_from_storage ref.namespace ref.name) history
      × Sent (delete_artifact ref.namespace ref.name) history

  Asked-append :
      (xs ys : Trace C) (ref : ExternalArtifactReference) → Asked xs ref → Asked (xs ++ ys) ref
  Asked-append xs ys ref h = (Sent-append _ xs ys h.0, Sent-append _ xs ys h.1)

  Asked-after :
      (xs ys : Trace C) (ref : ExternalArtifactReference) → Asked ys ref → Asked (xs ++ ys) ref
  Asked-after xs ys ref h = (Sent-after _ xs ys h.0, Sent-after _ xs ys h.1)

  deletions-Asked :
      (t : Toolkit C) (refs : List ExternalArtifactReference) → All (Asked (deletions refs)) refs
  deletions-Asked t [] = tt
  deletions-Asked t (ref ∷ refs) = (
    Asked-after (deletions refs) _ ref (inr (inl refl), inl refl),
    All-map _ _ refs (Asked-append (deletions refs) _) (deletions-Asked t refs),
  )

  -- The object has the finalizer, or an empty inventory, or it is being deleted and the deletion of
  -- all that its inventory lists has been asked for.
  abbrev pub IsGuarded : Lifecycle → Trace C → Type 0
  IsGuarded l history =
      (l.protected ≡ true)
      ⊎ ((l.owned ≡ []) ⊎ ((l.is_deleting ≡ true) × All (Asked history) l.owned))

  IsGuarded-after : (l : Lifecycle) (xs ys : Trace C) → IsGuarded l ys → IsGuarded l (xs ++ ys)
  IsGuarded-after l xs ys (inl h) = inl h
  IsGuarded-after l xs ys (inr (inl h)) = inr (inl h)
  IsGuarded-after l xs ys (inr (inr (d, h))) =
      inr (inr (d, All-map _ _ l.owned (Asked-after xs ys) h))

  -- The requests of a run on an object that is being deleted.
  released-Asked :
      (p : Params C) (o : Object C)
      → IsToolkit p.toolkit
      → o.is_deleting ≡ true
      → All (Asked (reconcile_object p o).0.effects) o.generator.inventory
  released-Asked p o laws d =
      subst (λ es. All (Asked es) o.generator.inventory)
        (sym (reconcile_object-deletions p o laws d).0)
        (All-map _ _ o.generator.inventory
          (Asked-after (patch_status (reconcile_object p o).0.object ∷ []) _)
          (deletions-Asked p.toolkit o.generator.inventory))

  run-IsGuarded :
      (p : Params C) (o : Object C) (history : Trace C)
      → IsToolkit p.toolkit
      → IsGuarded (lifecycle p.toolkit o) history
      → IsGuarded
          (lifecycle p.toolkit (reconcile_object p o).0.stored)
          ((reconcile_object p o).0.effects ++ history)
  run-IsGuarded p o history laws h =
      let sent = (reconcile_object p o).0.effects in
      elim (Move-cases (reconcile_object-Move p o laws)) [
        | inl same ↦
            subst (λ l. IsGuarded l (sent ++ history)) (sym same)
              (IsGuarded-after (lifecycle p.toolkit o) sent history h)
        | inr (inl guarded) ↦ inl guarded
        | inr (inr (d, still, kept)) ↦ inr (
            inr (
              still,
              subst (All (Asked (sent ++ history))) (sym kept) (
                  All-map _ _ o.generator.inventory (Asked-append sent history)
                    (released-Asked p o laws d)),
            ))
      ]

module _ {C : Type 0} (t : Toolkit C) where
  -- The objects that runs of the reconciler, edits of the spec and of the annotations, and requests
  -- of a deletion lead to, from an object that is not being deleted and has an empty inventory, with
  -- the requests that the runs have sent, the latest first.
  pub data Reachable : Object C → Trace C → Type 0 where
    created : (o : Object C) → o.is_deleting ≡ false → o.generator.inventory ≡ [] → Reachable o []
    edited :
        (o : Object C) (history : Trace C) (spec : ManifestGeneratorSpec) (annotations : Dict Text)
        (generation : ℕ)
        → Reachable o history
        → Reachable
            (record o {
              generator = record o.generator { spec = spec; annotations = annotations };
              generation = generation;
            })
            history
    deletion_requested :
        (o : Object C) (history : Trace C)
        → Reachable o history
        → Reachable (record o { is_deleting = true }) history
    reconciled :
        (p : Params C) (o : Object C) (history : Trace C)
        → p.toolkit ≡ t
        → Reachable o history
        → Reachable (reconcile_object p o).0.stored ((reconcile_object p o).0.effects ++ history)

  marked-IsGuarded :
      (o : Object C) (history : Trace C)
      → IsGuarded (lifecycle t o) history
      → IsGuarded (lifecycle t (record o { is_deleting = true })) history
  marked-IsGuarded o history (inl h) = inl h
  marked-IsGuarded o history (inr (inl h)) = inr (inl h)
  marked-IsGuarded o history (inr (inr (d, h))) = inr (inr (refl, h))

  reconciled-IsGuarded :
      (p : Params C) (o : Object C) (history : Trace C)
      → p.toolkit ≡ t
      → IsToolkit t
      → IsGuarded (lifecycle t o) history
      → IsGuarded
          (lifecycle t (reconcile_object p o).0.stored)
          ((reconcile_object p o).0.effects ++ history)
  reconciled-IsGuarded p o history same laws h =
      subst
        (λ u.
          IsGuarded (lifecycle u (reconcile_object p o).0.stored)
            ((reconcile_object p o).0.effects ++ history))
        same
        (run-IsGuarded p o history (subst IsToolkit (sym same) laws)
          (subst (λ u. IsGuarded (lifecycle u o) history) (sym same) h))

  -- An object that runs, edits and a request of its deletion have led to has the finalizer, or its
  -- inventory is empty, or it is being deleted and the runs have asked for the deletion of every
  -- reference of its inventory, from the storage and from the API server. Whether these requests
  -- succeeded is not stated, nor anything of artifacts that the inventory does not list.
  pub Reachable-IsGuarded :
      IsToolkit t
      → {o : Object C} {history : Trace C} → Reachable o history
      → IsGuarded (lifecycle t o) history
  Reachable-IsGuarded laws (created o d i) = inr (inl i)
  Reachable-IsGuarded laws (edited o history spec annotations generation r) =
      Reachable-IsGuarded laws r
  Reachable-IsGuarded laws (deletion_requested o history r) =
      marked-IsGuarded o history (Reachable-IsGuarded laws r)
  Reachable-IsGuarded laws (reconciled p o history same r) =
      reconciled-IsGuarded p o history same laws (Reachable-IsGuarded laws r)
