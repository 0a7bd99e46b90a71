-- ===== src/Rebuild/Panics.antt =====
-- crates/router/src/rebuild.rs: where a rebuild or a fold of pages may unwind.
use angzarr_router.Prelude.{
  ℕ, ◌+◌, ◌≡◌, ◌≢◌, ◌↔◌, inl, inr, Option, none, some, List, [], ◌∷◌, Outcome, ok, err, panicked,
  arith, Option-cases, Outcome-cases,
}
use angzarr_router.Wire.Payload.{Any}
use angzarr_router.Wire.Messages.{Wire, EventMeta, EventPage, EventBook, Snapshot}
use angzarr_router.Wire.Reading.{PageContext}
use angzarr_router.Errors.Reasons.{Reasons}
use angzarr_router.Errors.Types.{AnyError}
use angzarr_router.Rebuild.Types.{Rebuilder, FoldFailure, PageOrigin, ApplierFn, FoldFn}
use angzarr_router.Rebuild.Failures.{applier_outcome, fold_outcome, run_applier, run_fold}
use angzarr_router.Rebuild.Folding.{
  applier_for, context_of, fold_page, fold_pages, apply_pages, apply_emitted, number_pages,
}
use angzarr_router.Rebuild.Rebuilding.{
  decoded_start, starting_state, rebuild_loop, rebuild_pages, rebuild,
}

module _ ⦃w : Wire⦄ ⦃r : Reasons⦄ where
  applier_outcome-ne-panicked : (o : Outcome AnyError (Unit {0})) → applier_outcome o ≢ panicked
  applier_outcome-ne-panicked (ok done) = λ e. cc
  applier_outcome-ne-panicked (err e) = λ h. cc
  applier_outcome-ne-panicked panicked = λ e. cc

  fold_outcome-ne-panicked : (o : Outcome FoldFailure (Unit {0})) → fold_outcome o ≢ panicked
  fold_outcome-ne-panicked (ok done) = λ e. cc
  fold_outcome-ne-panicked (err e) = λ h. cc
  fold_outcome-ne-panicked panicked = λ e. cc

  module _ {S : Type 0} where
    run_applier-ne-panicked :
        (thunk : ApplierFn S) (s : S) (event : Any) (ctx : PageContext)
        → (run_applier thunk s event ctx).1 ≢ panicked
    unfolding run_applier
    run_applier-ne-panicked thunk s event ctx = applier_outcome-ne-panicked (thunk s event ctx).1

    run_fold-ne-panicked :
        (fold : FoldFn S) (s : S) (pages : List EventPage) (cover : Option w.Cover)
        → (run_fold fold s pages cover).1 ≢ panicked
    unfolding run_fold
    run_fold-ne-panicked fold s pages cover = fold_outcome-ne-panicked (fold s pages cover).1

    module _ (rb : Rebuilder S) (cover : Option w.Cover) where
      fold_page-ne-panicked :
          (s : S) (p : EventPage) (origin : PageOrigin)
          → (fold_page rb s p cover origin).1 ≢ panicked
      unfolding fold_page
      fold_page-ne-panicked s p origin h = elim (Option-cases rb.fold) [
        | inr (fold, batched) ↦ ground (arith, run_fold-ne-panicked fold s (p ∷ []) cover)
        | inl unbatched ↦ elim (Option-cases (applier_for rb p)) [
          | inl skipped ↦ ground arith
          | inr ((event, thunk), found) ↦
              ground (arith, run_applier-ne-panicked thunk s event (context_of cover p))
        ]
      ]

      fold_pages-ne-panicked :
          (ps : List EventPage) (s : S) (origin : PageOrigin)
          → (fold_pages rb s ps cover origin).1 ≢ panicked
      unfolding fold_pages
      fold_pages-ne-panicked [] s origin h = cc
      fold_pages-ne-panicked (p ∷ ps) s origin h = ground (
        arith,
        fold_page-ne-panicked s p origin,
        fold_pages-ne-panicked ps (fold_page rb s p cover origin).0 origin,
      )

      -- Folding pages never unwinds, whatever the appliers or the batched fold do.
      pub apply_pages-ne-panicked :
          (ps : List EventPage) (s : S) (origin : PageOrigin)
          → (apply_pages rb s ps cover origin).1 ≢ panicked
      unfolding apply_pages
      apply_pages-ne-panicked ps s origin h = elim (Option-cases rb.fold) [
        | inr (fold, batched) ↦ ground (arith, run_fold-ne-panicked fold s ps cover)
        | inl unbatched ↦ ground (arith, fold_pages-ne-panicked ps s origin)
      ]

      pub apply_emitted-ne-panicked :
          (events : List Any) (s : S) (at : ℕ) (meta : EventMeta)
          → (apply_emitted rb s events cover at meta).1 ≢ panicked
      unfolding apply_emitted
      apply_emitted-ne-panicked events s at meta =
          apply_pages-ne-panicked (number_pages events at meta) s PageOrigin.emitted

      rebuild_loop-ne-panicked :
          (ps : List EventPage) (s : S) (n : ℕ) → rebuild_loop rb cover ps s n ≢ panicked
      unfolding rebuild_loop
      rebuild_loop-ne-panicked [] s n h = cc
      rebuild_loop-ne-panicked (p ∷ ps) s n h = elim (Option-cases (applier_for rb p)) [
        | inl skipped ↦ ground (arith, rebuild_loop-ne-panicked ps s n)
        | inr ((event, thunk), found) ↦
            let ran = run_applier thunk s event (context_of cover p) in
            ground (
              arith,
              run_applier-ne-panicked thunk s event (context_of cover p),
              rebuild_loop-ne-panicked ps ran.0 (n + 1),
            )
      ]

    module _ (rb : Rebuilder S) where
      rebuild_pages-ne-panicked : (book : EventBook) (s : S) → rebuild_pages rb book s ≢ panicked
      unfolding rebuild_pages
      rebuild_pages-ne-panicked book s h = elim (Option-cases rb.fold) [
        | inr (fold, batched) ↦ ground (arith, run_fold-ne-panicked fold s book.pages book.cover)
        | inl unbatched ↦ ground (arith, rebuild_loop-ne-panicked rb book.cover book.pages s 0)
      ]

      decoded_start-ne-panicked :
          (snapshot : Snapshot) (start : Any) (o : Outcome AnyError S)
          → decoded_start rb snapshot start o ≢ panicked
      decoded_start-ne-panicked snapshot start (ok s) = λ h. cc
      decoded_start-ne-panicked snapshot start (err e) = λ h. cc
      decoded_start-ne-panicked snapshot start panicked = λ h. cc

      starting_state-ne-panicked : (book : EventBook) (s : S) → starting_state rb book s ≢ panicked
      unfolding starting_state
      starting_state-ne-panicked book s h = elim (Option-cases book.snapshot) [
        | inl fresh ↦ ground arith
        | inr (snapshot, delivered) ↦ elim (Option-cases rb.codec) [
          | inl uncoded ↦ ground arith
          | inr (codec, coded) ↦ elim (Option-cases snapshot.state) [
            | inl stateless ↦ ground arith
            | inr (start, given) ↦
                ground (arith, decoded_start-ne-panicked snapshot start (codec.decode start))
          ]
        ]
      ]

      rebuild-panicked :
          (book : Option EventBook) → rebuild rb book ≡ panicked → rb.factory ≡ panicked
      unfolding rebuild
      rebuild-panicked none h = elim (Outcome-cases rb.factory) [
        | inl (fresh, made) ↦ absurd (ground arith)
        | inr (inl (e, failed)) ↦ absurd e
        | inr (inr unwound) ↦ unwound
      ]
      rebuild-panicked (some book) h = elim (Outcome-cases rb.factory) [
        | inl (fresh, made) ↦ elim (Outcome-cases (starting_state rb book fresh)) [
          | inl (start, started) ↦ absurd (ground (arith, rebuild_pages-ne-panicked book start))
          | inr (inl (e, failed)) ↦ absurd (ground arith)
          | inr (inr unwound) ↦ absurd (starting_state-ne-panicked book fresh unwound)
        ]
        | inr (inl (e, failed)) ↦ absurd e
        | inr (inr unwound) ↦ unwound
      ]

      panicked-rebuild :
          (book : Option EventBook) → rb.factory ≡ panicked → rebuild rb book ≡ panicked
      unfolding rebuild
      panicked-rebuild none h = rw h
      panicked-rebuild (some book) h = rw h

      -- A rebuild unwinds exactly when its state factory does: what appliers, the batched fold and
      -- the codec's decoding do is answered.
      pub rebuild-eq-panicked_iff :
          (book : Option EventBook) → (rebuild rb book ≡ panicked) ↔ (rb.factory ≡ panicked)
      rebuild-eq-panicked_iff book = (rebuild-panicked book, panicked-rebuild book)
