-- ===== src/Rebuild/Folding.antt =====
-- crates/router/src/rebuild.rs: the folds of pages into state.
use angzarr_router.Prelude.{
  ℕ, ◌+◌, ◌%◌, ◌^◌, Bool, true, false, Option, none, some, List, [], ◌∷◌, lookup, is_empty, ok, err,
  panicked, ◌>>=◌, map_err, and_then, map_option, if◌then◌else◌,
}
use angzarr_router.Wire.Payload.{Any}
use angzarr_router.Wire.Messages.{Wire, EventMeta, PageBody, EventPage}
use angzarr_router.Wire.Reading.{type_name_from_url, page_event, PageContext}
use angzarr_router.Errors.Reasons.{Reasons}
use angzarr_router.Errors.Types.{CodedError}
use angzarr_router.Rebuild.Types.{Mutation, PageOrigin, ApplierFn, Rebuilder}
use angzarr_router.Rebuild.Failures.{page_fold_error, fold_error, run_applier, run_fold}

module _ ⦃w : Wire⦄ where
  abbrev pub context_of : Option w.Cover → EventPage → PageContext
  context_of cover page = record { cover = cover; sequence = page.sequence; meta = page.meta }

  module _ {S : Type 0} where
    -- The event of a page and the applier registered for its type: the two `let … else` of
    -- `Rebuilder::rebuild` and `Rebuilder::fold_page`.
    unfoldable pub applier_for : Rebuilder S → EventPage → Option (Any × ApplierFn S)
    unfolding page_event type_name_from_url lookup
    applier_for rb page = and_then (page_event page) (λ event.
        map_option (λ thunk. (event, thunk))
          (lookup (type_name_from_url event.type_url) rb.appliers))

  module _ ⦃r : Reasons⦄ {S : Type 0} where
    -- `Rebuilder::fold_page`, whose bool says whether anything ran.
    unfoldable pub fold_page :
        Rebuilder S → S → EventPage → Option w.Cover → PageOrigin → Mutation S CodedError Bool
    fold_page rb state page cover origin = elim rb.fold [
      | some fold ↦
          let (state', outcome) = run_fold fold state (page ∷ []) cover in
          (
            state',
            map_err (λ failure. fold_error origin (page ∷ []) failure rb.state_type_url) outcome
                >>= λ _. ok true,
          )
      | none ↦ elim (applier_for rb page) [
        | none ↦ (state, ok false)
        | some (event, thunk) ↦
            let (state', outcome) = run_applier thunk state event (context_of cover page) in
            (
              state',
              map_err (λ cause. page_fold_error origin page rb.state_type_url cause) outcome
                  >>= λ _. ok true,
            )
      ]
    ]

    -- `Rebuilder::apply_page`.
    unfoldable pub apply_page :
        Rebuilder S → S → EventPage → Option w.Cover → Mutation S CodedError Bool
    apply_page rb state page cover = fold_page rb state page cover PageOrigin.persisted

    -- The loop of `Rebuilder::apply_pages`.
    unfoldable pub fold_pages :
        Rebuilder S
        → S
        → List EventPage
        → Option w.Cover
        → PageOrigin
        → Mutation S CodedError (Unit {0})
    fold_pages rb state [] cover origin = (state, ok tt)
    fold_pages rb state (page ∷ pages) cover origin =
        let (state', outcome) = fold_page rb state page cover origin in
        elim outcome [
          | ok _ ↦ fold_pages rb state' pages cover origin
          | err e ↦ (state', err e)
          | panicked ↦ (state', panicked)
        ]

    -- `Rebuilder::apply_pages`.
    unfoldable pub apply_pages :
        Rebuilder S
        → S
        → List EventPage
        → Option w.Cover
        → PageOrigin
        → Mutation S CodedError (Unit {0})
    apply_pages rb state pages cover origin = elim rb.fold [
      | none ↦ fold_pages rb state pages cover origin
      | some fold ↦
          if is_empty pages
          then (state, ok tt)
          else (let (state', outcome) = run_fold fold state pages cover in
              (
                state',
                map_err (λ failure. fold_error origin pages failure rb.state_type_url) outcome,
              ))
    ]

  -- The pages of `Rebuilder::apply_emitted`: the events at their sequences from `next_sequence` on.
  -- The range counts in a u64, as a release build does: past the last one it starts at 0 again.
  unfoldable pub number_pages : List Any → ℕ → EventMeta → List EventPage
  number_pages [] sequence meta = []
  number_pages (event ∷ events) sequence meta =
      record { body = some (PageBody.event event); meta = some meta; sequence = sequence }
      ∷ number_pages events ((sequence + 1) % 2 ^ 64) meta

  module _ ⦃r : Reasons⦄ {S : Type 0} where
    -- `Rebuilder::apply_emitted`.
    unfoldable pub apply_emitted :
        Rebuilder S
        → S
        → List Any
        → Option w.Cover
        → ℕ
        → EventMeta
        → Mutation S CodedError (Unit {0})
    apply_emitted rb state events cover next_sequence meta =
        apply_pages rb state (number_pages events next_sequence meta) cover PageOrigin.emitted
