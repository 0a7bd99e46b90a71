-- ===== src/Rebuild/Replay.antt =====
-- crates/router/src/rebuild.rs: a rebuild through the appliers, and `Rebuilder::apply_pages`.
use angzarr_router.Prelude.{
  ℕ, ◌+◌, ◌≡◌, ◌↔◌, refl, inl, inr, Option, none, List, [], ◌∷◌, ◌++◌, ok, ◌>>=◌, arith,
  Option-cases, is_some, suc, if◌then◌else◌,
}
use angzarr_router.Wire.Messages.{Wire, EventPage}
use angzarr_router.Errors.Reasons.{Reasons}
use angzarr_router.Rebuild.Types.{Rebuilder, PageOrigin}
use angzarr_router.Rebuild.Failures.{run_applier}
use angzarr_router.Rebuild.Folding.{applier_for, context_of, fold_page, fold_pages}
use angzarr_router.Rebuild.Rebuilding.{rebuild_loop}

-- How many pages have a registered applier.
abbrev pub applicable : ⦃w : Wire⦄ {S : Type 0} → Rebuilder S → List EventPage → ℕ
applicable rb [] = 0
applicable rb (p ∷ ps) =
    if is_some (applier_for rb p) then suc (applicable rb ps) else applicable rb ps

module _ ⦃w : Wire⦄ ⦃r : Reasons⦄ {S : Type 0} (rb : Rebuilder S) (cover : Option w.Cover) where
  -- The loop over two runs of pages is the loop over the one, then over the other.
  pub rebuild_loop-append :
      (ps qs : List EventPage) (s : S) (n : ℕ)
      → rebuild_loop rb cover (ps ++ qs) s n
        ≡ (rebuild_loop rb cover ps s n >>= λ folded. rebuild_loop rb cover qs folded.0 folded.1)
  unfolding rebuild_loop
  rebuild_loop-append [] qs s n = refl
  rebuild_loop-append (p ∷ ps) qs s n = elim (Option-cases (applier_for rb p)) [
    | inl skipped ↦ ground (arith, rebuild_loop-append ps qs s n)
    | inr ((event, thunk), found) ↦ ground (
      arith,
      rebuild_loop-append ps qs (run_applier thunk s event (context_of cover p)).0 (n + 1),
    )
  ]

  -- Where a run of pages folds, a rebuild of them reaches the same state, whatever their origin.
  pub fold_pages-rebuild_loop :
      (origin : PageOrigin) (ps : List EventPage) (s : S) (n : ℕ) (s' : S)
      → rb.fold ≡ none
      → fold_pages rb s ps cover origin ≡ (s', ok tt)
      → rebuild_loop rb cover ps s n ≡ ok (s', n + applicable rb ps)
  unfolding fold_pages fold_page rebuild_loop
  fold_pages-rebuild_loop origin [] s n s' e h = ground arith
  fold_pages-rebuild_loop origin (p ∷ ps) s n s' e h = elim (Option-cases (applier_for rb p)) [
    | inl skipped ↦ ground (arith, fold_pages-rebuild_loop origin ps s n s' e)
    | inr ((event, thunk), found) ↦
        let s1 = (run_applier thunk s event (context_of cover p)).0 in
        ground (arith, fold_pages-rebuild_loop origin ps s1 (n + 1) s' e)
  ]

  -- Where a rebuild of pages succeeds, folding them reaches the same state.
  rebuild_loop-fold_pages :
      (origin : PageOrigin) (ps : List EventPage) (s : S) (n : ℕ) (s' : S) (m : ℕ)
      → rb.fold ≡ none
      → rebuild_loop rb cover ps s n ≡ ok (s', m)
      → fold_pages rb s ps cover origin ≡ (s', ok tt)
  unfolding fold_pages fold_page rebuild_loop
  rebuild_loop-fold_pages origin [] s n s' m e h = ground arith
  rebuild_loop-fold_pages origin (p ∷ ps) s n s' m e h = elim (Option-cases (applier_for rb p)) [
    | inl skipped ↦ ground (arith, rebuild_loop-fold_pages origin ps s n s' m e)
    | inr ((event, thunk), found) ↦
        let s1 = (run_applier thunk s event (context_of cover p)).0 in
        ground (arith, rebuild_loop-fold_pages origin ps s1 (n + 1) s' m e)
  ]

  -- Through the appliers, without a batched fold: a rebuild of a run of pages succeeds with a state, and
  -- counts the pages that have an applier, exactly when folding the pages, whatever their origin,
  -- succeeds with that state.
  pub rebuild_loop-fold_pages_iff :
      (origin : PageOrigin) (ps : List EventPage) (s : S) (n : ℕ) (s' : S)
      → rb.fold ≡ none
      → (rebuild_loop rb cover ps s n ≡ ok (s', n + applicable rb ps))
        ↔ (fold_pages rb s ps cover origin ≡ (s', ok tt))
  rebuild_loop-fold_pages_iff origin ps s n s' e = (
    rebuild_loop-fold_pages origin ps s n s' (n + applicable rb ps) e,
    fold_pages-rebuild_loop origin ps s n s' e,
  )

  -- A run of pages that folds, and then the pages behind it.
  pub fold_pages-append :
      (origin : PageOrigin) (ps qs : List EventPage) (s s1 : S)
      → fold_pages rb s ps cover origin ≡ (s1, ok tt)
      → fold_pages rb s (ps ++ qs) cover origin ≡ fold_pages rb s1 qs cover origin
  unfolding fold_pages
  fold_pages-append origin [] qs s s1 h = ground arith
  fold_pages-append origin (p ∷ ps) qs s s1 h =
      ground (arith, fold_pages-append origin ps qs (fold_page rb s p cover origin).0 s1)
