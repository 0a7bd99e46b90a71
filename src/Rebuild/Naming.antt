-- ===== src/Rebuild/Naming.antt =====
-- crates/router/src/rebuild.rs: which errors a fold or a rebuild answers with.
use angzarr_router.Prelude.{
  ◌≡◌, refl, ap, inl, inr, Option, none, List, [], ◌∷◌, ◌++◌, ok, err, arith, Option-cases,
  Outcome-cases, Bool,
}
use angzarr_router.Wire.Payload.{Diagnostic}
use angzarr_router.Wire.Messages.{Wire, EventPage}
use angzarr_router.Errors.Reasons.{Reasons}
use angzarr_router.Errors.Types.{CodedError}
use angzarr_router.Rebuild.Types.{Rebuilder, PageOrigin}
use angzarr_router.Rebuild.Failures.{page_fold_error, run_applier}
use angzarr_router.Rebuild.Folding.{applier_for, context_of, fold_page, fold_pages}

module _ ⦃w : Wire⦄ ⦃r : Reasons⦄ {S : Type 0} (rb : Rebuilder S) (cover : Option w.Cover) where
  -- A fold of pages that stopped at one of them: the pages before it folded, and the error is the
  -- fold error of that page.
  pub record StopsAt (origin : PageOrigin) (ps : List EventPage) (s s' : S) (e : CodedError)
      : Type 0 where
    pub before : List EventPage
    pub failing : EventPage
    pub later : List EventPage
    pub split : ps ≡ before ++ failing ∷ later
    pub reached : S
    pub folded : fold_pages rb s before cover origin ≡ (reached, ok tt)
    pub cause : Option Diagnostic
    pub named : e ≡ page_fold_error origin failing rb.state_type_url cause
    pub left : (fold_page rb reached failing cover origin).0 ≡ s'

  StopsAt-cons :
      (origin : PageOrigin) (p : EventPage) (ps : List EventPage) (s s1 s' : S) (e : CodedError)
      → ((b : Bool) × (fold_page rb s p cover origin ≡ (s1, ok b)))
      → StopsAt origin ps s1 s' e
      → StopsAt origin (p ∷ ps) s s' e
  unfolding fold_pages
  StopsAt-cons origin p ps s s1 s' e (b, ran) at = record {
    before = p ∷ at.before;
    failing = at.failing;
    later = at.later;
    split = ap (λ xs. p ∷ xs) at.split;
    reached = at.reached;
    folded = ground (arith, at.folded);
    cause = at.cause;
    named = at.named;
    left = at.left;
  }

  fold_page-named :
      (origin : PageOrigin) (p : EventPage) (s : S) (e : CodedError)
      → rb.fold ≡ none
      → (fold_page rb s p cover origin).1 ≡ err e
      → (cause : Option Diagnostic) × (e ≡ page_fold_error origin p rb.state_type_url cause)
  unfolding fold_page
  fold_page-named origin p s e unbatched h = elim (Option-cases (applier_for rb p)) [
    | inl skipped ↦ absurd (ground arith)
    | inr ((event, thunk), found) ↦
        elim (Outcome-cases (run_applier thunk s event (context_of cover p)).1) [
          | inl (done, ran) ↦ absurd (ground arith)
          | inr (inl (cause, failed)) ↦ (cause, ground arith)
          | inr (inr unwound) ↦ absurd (ground arith)
        ]
  ]

  -- Where a fold of pages through the appliers fails, it fails on one of them: the pages before that
  -- one folded, the error names it, no page behind it is folded, and the state left is the one its
  -- applier left.
  pub fold_pages-StopsAt :
      (origin : PageOrigin) (ps : List EventPage) (s s' : S) (e : CodedError)
      → rb.fold ≡ none
      → fold_pages rb s ps cover origin ≡ (s', err e)
      → StopsAt origin ps s s' e
  unfolding fold_pages
  fold_pages-StopsAt origin [] s s' e unbatched h = absurd (ground arith)
  fold_pages-StopsAt origin (p ∷ ps) s s' e unbatched h =
      let ran = fold_page rb s p cover origin in
      elim (Outcome-cases ran.1) [
        | inl (b, folds) ↦
            StopsAt-cons origin p ps s ran.0 s' e (b, ground arith)
              (fold_pages-StopsAt origin ps ran.0 s' e unbatched (ground arith))
        | inr (inl (e1, fails)) ↦
            let (cause, same) = fold_page-named origin p s e1 unbatched fails in
            record {
              before = [];
              failing = p;
              later = ps;
              split = refl;
              reached = s;
              folded = refl;
              cause = cause;
              named = ground (arith, same);
              left = ground arith;
            }
        | inr (inr unwound) ↦ absurd (ground arith)
      ]
