-- ===== src/Rebuild/Bugs.antt =====
-- crates/router/src/rebuild.rs: the statuses of a rebuild's errors.
use angzarr_router.Prelude.{
  ℕ, ◌+◌, String, ◌≡◌, inl, inr, Option, none, some, List, [], ◌∷◌, ◌++◌, Outcome, ok, err,
  panicked, and_then, get_elem?, arith, Option-cases, Outcome-cases, unwrap_or, map_option, first,
  last,
}
use angzarr_router.Wire.Payload.{Any, Diagnostic}
use angzarr_router.Wire.Messages.{Wire, EventPage, EventBook, Snapshot}
use angzarr_router.Wire.Reading.{page_event}
use angzarr_router.Errors.Reasons.{AngzarrReason, Reasons, HandleReasons}
use angzarr_router.Errors.Types.{CodedError, AnyError, FoldAt}
use angzarr_router.Errors.Coded.{fold_failed, persisted_corrupt, place_args, cause_args}
use angzarr_router.Errors.Facts.{IsBug, keyed-IsBug_internal, keyed-IsBug_data_loss}
use angzarr_router.Rebuild.Types.{Rebuilder, FoldFailure, PageOrigin, origin_reason, panicked_cause}
use angzarr_router.Rebuild.Failures.{page_fold_error, fold_error, run_applier, run_fold}
use angzarr_router.Rebuild.Folding.{applier_for, context_of}
use angzarr_router.Rebuild.Rebuilding.{
  decoded_start, decode_panicked, starting_state, rebuild_loop, rebuild_pages, rebuild,
}

module _ ⦃w : Wire⦄ ⦃r : Reasons⦄ (declared : HandleReasons r) where
  fold_failed-IsBug :
      (origin : PageOrigin) (at : FoldAt) (url : String) (cause : Option Diagnostic)
      → IsBug (fold_failed (origin_reason origin) at url cause)
  unfolding fold_failed origin_reason
  fold_failed-IsBug PageOrigin.persisted at url cause =
      keyed-IsBug_internal AngzarrReason.fold_failed
        (place_args at ++ ((r.state_type_url_arg, url) ∷ []) ++ cause_args cause) declared.fold
  fold_failed-IsBug PageOrigin.emitted at url cause =
      keyed-IsBug_internal AngzarrReason.fold_failed_emitted
        (place_args at ++ ((r.state_type_url_arg, url) ∷ []) ++ cause_args cause)
        declared.fold_emitted

  page_fold_error-IsBug :
      (origin : PageOrigin) (p : EventPage) (url : String) (cause : Option Diagnostic)
      → IsBug (page_fold_error origin p url cause)
  unfolding page_fold_error
  page_fold_error-IsBug origin p url cause =
      fold_failed-IsBug origin
        (FoldAt.page p.sequence (unwrap_or (map_option (λ e. e.type_url) (page_event p)) "")) url
        cause

  pub fold_error-IsBug :
      (origin : PageOrigin) (ps : List EventPage) (failure : FoldFailure) (url : String)
      → IsBug (fold_error origin ps failure url)
  unfolding fold_error
  fold_error-IsBug origin ps failure url =
      elim (Option-cases (and_then failure.page_index (λ i. get_elem? ps i))) [
        | inl unknown ↦
            rw (unknown, fold_error)
              (fold_failed-IsBug origin
                (FoldAt.range (unwrap_or (map_option (λ p. p.sequence) (first ps)) 0)
                  (unwrap_or (map_option (λ p. p.sequence) (last ps)) 0))
                url failure.cause)
        | inr (p, known) ↦ rw (known, fold_error) (page_fold_error-IsBug origin p url failure.cause)
      ]

  module _ {S : Type 0} (rb : Rebuilder S) where
    rebuild_loop-IsBug :
        (cover : Option w.Cover) (ps : List EventPage) (s : S) (n : ℕ) (e : CodedError)
        → rebuild_loop rb cover ps s n ≡ err e
        → IsBug e
    unfolding rebuild_loop
    rebuild_loop-IsBug cover [] s n e h = absurd (ground arith)
    rebuild_loop-IsBug cover (p ∷ ps) s n e h = elim (Option-cases (applier_for rb p)) [
      | inl skipped ↦ rebuild_loop-IsBug cover ps s n e (ground arith)
      | inr ((event, thunk), found) ↦
          let ran = run_applier thunk s event (context_of cover p) in
          elim (Outcome-cases ran.1) [
            | inl (done, folds) ↦ rebuild_loop-IsBug cover ps ran.0 (n + 1) e (ground arith)
            | inr (inl (cause, fails)) ↦
                let same : page_fold_error PageOrigin.persisted p rb.state_type_url cause ≡ e =
                  ground arith in
                rw (← same) (page_fold_error-IsBug PageOrigin.persisted p rb.state_type_url cause)
            | inr (inr unwound) ↦ absurd (ground arith)
          ]
    ]

    rebuild_pages-IsBug :
        (book : EventBook) (s : S) (e : CodedError) → rebuild_pages rb book s ≡ err e → IsBug e
    unfolding rebuild_pages
    rebuild_pages-IsBug book s e h = elim (Option-cases rb.fold) [
      | inl unbatched ↦ rebuild_loop-IsBug book.cover book.pages s 0 e (ground arith)
      | inr (fold, batched) ↦ elim (Outcome-cases (run_fold fold s book.pages book.cover).1) [
        | inr (inl (failure, fails)) ↦
            let same : fold_error PageOrigin.persisted book.pages failure rb.state_type_url ≡ e =
              ground arith in
            rw (← same) (fold_error-IsBug PageOrigin.persisted book.pages failure rb.state_type_url)
        | inl (done, folds) ↦ absurd (ground arith)
        | inr (inr unwound) ↦ absurd (ground arith)
      ]
    ]

    decoded_start-IsBug :
        (snapshot : Snapshot) (start : Any) (o : Outcome AnyError S) (e : CodedError)
        → decoded_start rb snapshot start o ≡ err e
        → IsBug e
    unfolding persisted_corrupt origin_reason
    decoded_start-IsBug snapshot start (ok s) e h = cc
    decoded_start-IsBug snapshot start (err _) e h =
        let same : persisted_corrupt start.type_url ≡ e = cc in
        rw (← same) (
          keyed-IsBug_data_loss AngzarrReason.persisted_event_corrupt
            ((r.type_url_arg, start.type_url) ∷ []) declared.corrupt)
    decoded_start-IsBug snapshot start panicked e h =
        let same : decode_panicked rb snapshot start ≡ e = cc in
        rw (← same) (
          fold_failed-IsBug PageOrigin.persisted (FoldAt.page snapshot.sequence start.type_url)
            rb.state_type_url (some panicked_cause))

    starting_state-IsBug :
        (book : EventBook) (s : S) (e : CodedError) → starting_state rb book s ≡ err e → IsBug e
    unfolding starting_state
    starting_state-IsBug book s e h = elim (Option-cases book.snapshot) [
      | inl fresh ↦ absurd (ground arith)
      | inr (snapshot, delivered) ↦ elim (Option-cases rb.codec) [
        | inl uncoded ↦ absurd (ground arith)
        | inr (codec, coded) ↦ elim (Option-cases snapshot.state) [
          | inl stateless ↦ absurd (ground arith)
          | inr (start, given) ↦
              decoded_start-IsBug snapshot start (codec.decode start) e (ground arith)
        ]
      ]
    ]

    -- Every error of a rebuild is a bug: never a re-run, a business status or a refusal. For a
    -- catalog with the statuses that the documentation gives.
    pub rebuild-IsBug :
        (book : Option EventBook) (e : CodedError) → rebuild rb book ≡ err e → IsBug e
    unfolding rebuild
    rebuild-IsBug none e h = elim (Outcome-cases rb.factory) [
      | inl made ↦ absurd (ground arith)
      | inr (inl (never, failed)) ↦ absurd never
      | inr (inr unwound) ↦ absurd (ground arith)
    ]
    rebuild-IsBug (some book) e h = elim (Outcome-cases rb.factory) [
      | inl (fresh, made) ↦ elim (Outcome-cases (starting_state rb book fresh)) [
        | inl (start, started) ↦ elim (Outcome-cases (rebuild_pages rb book start)) [
          | inl folded ↦ absurd (ground arith)
          | inr (inl (e1, fails)) ↦ rebuild_pages-IsBug book start e (ground arith)
          | inr (inr unwound) ↦ absurd (ground arith)
        ]
        | inr (inl (e1, fails)) ↦ starting_state-IsBug book fresh e (ground arith)
        | inr (inr unwound) ↦ absurd (ground arith)
      ]
      | inr (inl (never, failed)) ↦ absurd never
      | inr (inr unwound) ↦ absurd (ground arith)
    ]
