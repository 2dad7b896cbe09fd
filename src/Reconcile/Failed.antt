-- ===== src/Reconcile/Failed.antt =====
-- The object behind a failed run.
use flux_dev.Base.{Bool, List, Option, [], ap, none, refl, some, sym, true, ◌∙◌, ◌∷◌, ◌≡◌}
use flux_dev.Builder.Mkdir.{after}
use flux_dev.Reconcile.Ends.{ended, failed_as, reported, with_conditions}
use flux_dev.Reconcile.Publication.{patched-object}
use flux_dev.Reconcile.Publish.{Params}
use flux_dev.Reconcile.Ran.{
  Ran, adopted, completed, dispatch-Ran, rejected, released, skipped, stalled_for, stopped,
}
use flux_dev.Reconcile.Report.{Reports, failed_as-Reports, is_terminal, stalls_as}
use flux_dev.Reconcile.Run.{dispatch, initial, reconcile_object, with_errors}
use flux_dev.Reconcile.Settle.{settle}
use flux_dev.Reconcile.State.{
  ApiError, Failure, Object, Outcome, State, error, finished, requeue, status_not_updated,
}
use flux_dev.Reconcile.Status.{
  handled_request, patch_status_of, reason_text, set_last_handled, summarize_status,
}
use flux_dev.Reconcile.Toolkit.{IsToolkit}
use flux_dev.Text.{Text}
use mathlib.Core.Path.{subst}

module _ {C : Type 0} (p : Params C) (o : Object C) (laws : IsToolkit p.toolkit) where
  abbrev settle_here : C → C
  settle_here = settle p.toolkit laws p.environment

  pub set_last_handled-frame :
      (v : Option Text) (x : Object C)
      → ((set_last_handled p.toolkit p.environment v x).conditions ≡ x.conditions)
        × ((set_last_handled p.toolkit p.environment v x).generator ≡ x.generator)
        × ((set_last_handled p.toolkit p.environment v x).observed_generation
            ≡ x.observed_generation)
        × ((set_last_handled p.toolkit p.environment v x).observed_sources_digest
            ≡ x.observed_sources_digest)
  set_last_handled-frame none x = (refl, refl, refl, refl)
  set_last_handled-frame (some v) x = (refl, refl, refl, refl)

  -- The fields that the summary of the status keeps, and the conditions that it leaves.
  pub summarize_status-frame :
      (s : State C)
      → ((summarize_status p.toolkit p.environment s).0.object.conditions
          ≡ settle_here s.object.conditions)
        × ((summarize_status p.toolkit p.environment s).0.object.generator ≡ s.object.generator)
        × ((summarize_status p.toolkit p.environment s).0.object.observed_generation
            ≡ s.object.observed_generation)
        × ((summarize_status p.toolkit p.environment s).0.object.observed_sources_digest
            ≡ s.object.observed_sources_digest)
  unfolding summarize_status patch_status_of handled_request
  summarize_status-frame s =
      let frame =
        set_last_handled-frame (p.toolkit.reconcile_annotation_value s.object.generator.annotations)
          s.object in
      let same = patched-object p.toolkit p.environment _ in
      (
        ap (λ x. x.conditions) same ∙ ap settle_here frame.0,
        ap (λ x. x.generator) same ∙ frame.1,
        ap (λ x. x.observed_generation) same ∙ frame.2,
        ap (λ x. x.observed_sources_digest) same ∙ frame.3,
      )

  -- The returned error, and the one that the run stopped with.
  abbrev Stops : Outcome → Failure → Text → Type 0
  Stops outcome f reason =
      (g : Failure) × (outcome ≡ error g)
      × (reported g ≡ some reason)
      × (is_terminal g ≡ is_terminal f)

  error-injective : {f g : Failure} → ◌≡◌ {A = Outcome} (error f) (error g) → f ≡ g
  error-injective h = cc

  Stops-unreported :
      {outcome : Outcome} (es : List ApiError) {f : Failure} {reason : Text}
      → ◌≡◌ {A = Outcome} (error (status_not_updated es)) (error f)
      → reported f ≡ some reason
      → Stops outcome f reason
  unfolding reported
  Stops-unreported es {reason = reason} h r =
      let none_is_some : ◌≡◌ {A = Option Text} none (some reason) =
        subst (λ x. reported x ≡ some reason) (sym (error-injective h)) r in
      cc

  with_errors-Stops :
      (outcome : Outcome) (es : List ApiError) {f : Failure} {reason : Text}
      → with_errors p outcome es ≡ error f
      → reported f ≡ some reason
      → Stops outcome f reason
  unfolding reported
  with_errors-Stops outcome [] {f = f} h r = (f, h, r, refl)
  with_errors-Stops finished (e ∷ es) h r = Stops-unreported (e ∷ es) h r
  with_errors-Stops (requeue after) (e ∷ es) h r = Stops-unreported (e ∷ es) h r
  with_errors-Stops (error g) (e ∷ es) {reason = reason} h r = (
    g,
    refl,
    subst (λ x. reported x ≡ some reason) (sym (error-injective h)) r,
    ap is_terminal (error-injective h),
  )

  -- What a failed run leaves: the conditions, and the status otherwise.
  abbrev pub FailedWith : Bool → Text → Object C → Type 0
  FailedWith stops reason x =
      Reports p.toolkit laws stops reason x.conditions
      × (x.generator ≡ o.generator)
      × (x.observed_generation ≡ o.observed_generation)
      × (x.observed_sources_digest ≡ o.observed_sources_digest)

  framed :
      (s : State C) (c : C) (stops : Bool) (reason : Text)
      → s.object ≡ with_conditions o c
      → Reports p.toolkit laws stops reason (settle_here c)
      → FailedWith stops reason (summarize_status p.toolkit p.environment s).0.object
  framed s c stops reason e h =
      let frame = summarize_status-frame s in
      (
        subst (Reports p.toolkit laws stops reason)
            (sym (frame.0 ∙ ap (λ x. settle_here x.conditions) e)) h,
        frame.1 ∙ ap (λ x. x.generator) e,
        frame.2 ∙ ap (λ x. x.observed_generation) e,
        frame.3 ∙ ap (λ x. x.observed_sources_digest) e,
      )

  Ran-FailedWith :
      {s : State C} {outcome : Outcome} (g : Failure) {reason : Text}
      → Ran p o s outcome
      → outcome ≡ error g
      → reported g ≡ some reason
      → FailedWith (is_terminal g) reason (summarize_status p.toolkit p.environment s).0.object
  unfolding reported ended
  Ran-FailedWith g (released d x y) h r = cc
  Ran-FailedWith g (adopted d f x y) h r = cc
  Ran-FailedWith g (skipped d f x y) h r = cc
  Ran-FailedWith g (completed refs digest d f named x y) h r = cc
  Ran-FailedWith {s = s} g {reason = reason} (rejected kind d f x y) h r =
      subst
        (λ z.
          FailedWith (is_terminal z) reason (summarize_status p.toolkit p.environment s).0.object)
        (error-injective h)
        (framed s (stalled_for p o kind o.conditions) true reason x (
          stalls_as p.toolkit laws p.environment o.conditions (reason_text kind)
            (subst (λ z. reported z ≡ some reason) (sym (error-injective h)) r)))
  Ran-FailedWith {s = s} g {reason = reason} (stopped outcome d f held) h r =
      framed s (failed_as p.toolkit o.conditions g) (is_terminal g) reason
        (subst (λ z. s.object ≡ with_conditions o (ended p.toolkit o.conditions z)) h held.kept)
        (failed_as-Reports p.toolkit laws p.environment o.conditions g r)

  -- A run that returns an error with a reason leaves the object with a false Ready condition of that
  -- reason, and with its generator, its inventory included, and its observed generation and digest.
  -- A terminal error, which is one of the validation or of access, stalls the object. With any other,
  -- those of the pipeline, of a build and of a rendering included, it is not stalled, and its
  -- Reconciling condition tells of a retry.
  pub reconcile_object-FailedWith :
      (f : Failure) (reason : Text)
      → (reconcile_object p o).1 ≡ error f
      → reported f ≡ some reason
      → FailedWith (is_terminal f) reason (reconcile_object p o).0.object
  unfolding reconcile_object
  reconcile_object-FailedWith f reason h r =
      let ran = dispatch p (initial o) in
      let (g, same, reports, alike) =
        with_errors-Stops (ran.1) (summarize_status p.toolkit p.environment (ran.0)).1 h r in
      subst (λ b. FailedWith b reason (summarize_status p.toolkit p.environment (ran.0)).0.object)
        alike (Ran-FailedWith g (dispatch-Ran p o) same reports)
