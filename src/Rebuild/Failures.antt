-- ===== src/Rebuild/Failures.antt =====
-- crates/router/src/rebuild.rs: the errors of a fold, and the calls of appliers and folds.
use angzarr_router.Prelude.{
  String, Option, none, some, List, get_elem?, first, last, Outcome, ok, err, panicked, and_then,
  map_option, unwrap_or,
}
use angzarr_router.Wire.Payload.{Any, Diagnostic}
use angzarr_router.Wire.Messages.{Wire, EventPage}
use angzarr_router.Wire.Reading.{page_event, PageContext}
use angzarr_router.Errors.Reasons.{Reasons}
use angzarr_router.Errors.Types.{FoldAt, CodedError, AnyError}
use angzarr_router.Errors.Coded.{fold_failed}
use angzarr_router.Rebuild.Types.{
  Mutation, FoldFailure, PageOrigin, origin_reason, applier_cause, panicked_cause, ApplierFn,
  FoldFn,
}

module _ ⦃w : Wire⦄ where
  module _ ⦃r : Reasons⦄ where
    -- `page_fold_error`.
    unfoldable pub page_fold_error :
        PageOrigin → EventPage → String → Option Diagnostic → CodedError
    page_fold_error origin page state_type_url cause =
        fold_failed (origin_reason origin)
          (FoldAt.page page.sequence
            (unwrap_or (map_option (λ e. e.type_url) (page_event page)) ""))
          state_type_url cause

    -- `fold_error`.
    unfoldable pub fold_error : PageOrigin → List EventPage → FoldFailure → String → CodedError
    fold_error origin pages failure state_type_url =
        elim (and_then failure.page_index (λ i. get_elem? pages i)) [
          | some page ↦ page_fold_error origin page state_type_url failure.cause
          | none ↦
              fold_failed (origin_reason origin)
                (FoldAt.range (unwrap_or (map_option (λ p. p.sequence) (first pages)) 0)
                  (unwrap_or (map_option (λ p. p.sequence) (last pages)) 0))
                state_type_url failure.cause
        ]

    -- What `run_applier` makes of its applier's outcome.
    abbrev pub applier_outcome :
        Outcome AnyError (Unit {0}) → Outcome (Option Diagnostic) (Unit {0})
    applier_outcome (ok done) = ok done
    applier_outcome (err e) = err (applier_cause e)
    applier_outcome panicked = err (some panicked_cause)

    abbrev pub fold_outcome : Outcome FoldFailure (Unit {0}) → Outcome FoldFailure (Unit {0})
    fold_outcome (ok done) = ok done
    fold_outcome (err failure) = err failure
    fold_outcome panicked = err (record { page_index = none; cause = some panicked_cause })

    -- `run_applier`.
    unfoldable pub run_applier :
        {S : Type 0}
        → ApplierFn S
        → S
        → Any
        → PageContext
        → Mutation S (Option Diagnostic) (Unit {0})
    run_applier thunk state event ctx =
        let (state', outcome) = thunk state event ctx in (state', applier_outcome outcome)

    -- `run_fold`.
    unfoldable pub run_fold :
        {S : Type 0}
        → FoldFn S
        → S
        → List EventPage
        → Option w.Cover
        → Mutation S FoldFailure (Unit {0})
    run_fold fold state pages cover =
        let (state', outcome) = fold state pages cover in (state', fold_outcome outcome)
