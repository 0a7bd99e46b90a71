-- ===== src/Rebuild/Rebuilding.antt =====
-- crates/router/src/rebuild.rs: `Rebuilder::rebuild`.
use angzarr_router.Prelude.{
  ℕ, ◌+◌, false, Option, none, some, List, [], ◌∷◌, length, is_empty, Outcome, ok, err, panicked,
  ◌>>=◌, map_err, if◌then◌else◌, infallible,
}
use angzarr_router.Wire.Payload.{Any}
use angzarr_router.Wire.Messages.{Wire, EventPage, EventBook, Snapshot}
use angzarr_router.Errors.Reasons.{AngzarrReason, Reasons}
use angzarr_router.Errors.Types.{FoldAt, CodedError, AnyError}
use angzarr_router.Errors.Coded.{fold_failed, persisted_corrupt}
use angzarr_router.Context.{has_history}
use angzarr_router.Rebuild.Types.{RebuildInfo, PageOrigin, panicked_cause, Rebuilder}
use angzarr_router.Rebuild.Failures.{page_fold_error, fold_error, run_applier, run_fold}
use angzarr_router.Rebuild.Folding.{applier_for, context_of}

module _ ⦃w : Wire⦄ ⦃r : Reasons⦄ {S : Type 0} where
  -- The error for a starting state whose decoding panicked.
  abbrev pub decode_panicked : Rebuilder S → Snapshot → Any → CodedError
  decode_panicked rb snapshot start =
      fold_failed AngzarrReason.fold_failed (FoldAt.page snapshot.sequence start.type_url)
        rb.state_type_url (some panicked_cause)

  -- What `Rebuilder::rebuild` makes of the codec's decoding of the starting state.
  abbrev pub decoded_start :
      Rebuilder S → Snapshot → Any → Outcome AnyError S → Outcome CodedError S
  decoded_start rb snapshot start (ok state) = ok state
  decoded_start rb snapshot start (err _) = err (persisted_corrupt start.type_url)
  decoded_start rb snapshot start panicked = err (decode_panicked rb snapshot start)

  -- The starting state of `Rebuilder::rebuild`: the one delivered, decoded, when there is one and a
  -- codec; else the fresh state.
  unfoldable pub starting_state : Rebuilder S → EventBook → S → Outcome CodedError S
  starting_state rb book fresh = elim book.snapshot [
    | none ↦ ok fresh
    | some snapshot ↦ elim rb.codec [
      | none ↦ ok fresh
      | some codec ↦ elim snapshot.state [
        | none ↦ ok fresh
        | some start ↦ decoded_start rb snapshot start (codec.decode start)
      ]
    ]
  ]

  -- The loop of `Rebuilder::rebuild`: the state and how many appliers ran.
  unfoldable pub rebuild_loop :
      Rebuilder S → Option w.Cover → List EventPage → S → ℕ → Outcome CodedError (S × ℕ)
  rebuild_loop rb cover [] state applied = ok (state, applied)
  rebuild_loop rb cover (page ∷ pages) state applied = elim (applier_for rb page) [
    | none ↦ rebuild_loop rb cover pages state applied
    | some (event, thunk) ↦
        let (state', outcome) = run_applier thunk state event (context_of cover page) in
        elim outcome [
          | ok _ ↦ rebuild_loop rb cover pages state' (applied + 1)
          | err cause ↦ err (page_fold_error PageOrigin.persisted page rb.state_type_url cause)
          | panicked ↦ panicked
        ]
  ]

  -- The pages of a book folded onto its starting state by `Rebuilder::rebuild`.
  unfoldable pub rebuild_pages : Rebuilder S → EventBook → S → Outcome CodedError (S × ℕ)
  rebuild_pages rb book start = elim rb.fold [
    | none ↦ rebuild_loop rb book.cover book.pages start 0
    | some fold ↦
        if is_empty book.pages
        then ok (start, 0)
        else (let (state', outcome) = run_fold fold start book.pages book.cover in
            (map_err
              (λ failure. fold_error PageOrigin.persisted book.pages failure rb.state_type_url)
              outcome)
            >>= λ _. ok (state', length book.pages))
  ]

  -- `Rebuilder::rebuild`.
  unfoldable pub rebuild : Rebuilder S → Option EventBook → Outcome CodedError (S × RebuildInfo)
  rebuild rb none = do
    fresh ← infallible rb.factory
    ok (fresh, record { had_prior_events = false; applied_count = 0 })
  rebuild rb (some book) = do
    fresh ← infallible rb.factory
    start ← starting_state rb book fresh
    folded ← rebuild_pages rb book start
    ok (folded.0, record { had_prior_events = has_history book; applied_count = folded.1 })
