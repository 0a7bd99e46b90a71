-- ===== src/Rebuild/Extending.antt =====
-- crates/router/src/rebuild.rs: the rebuild of a book with more pages behind its own.
use angzarr_router.Prelude.{◌+◌, ◌≡◌, none, some, List, ◌++◌, ok, arith, inl, inr, Outcome-cases}
use angzarr_router.Wire.Messages.{Wire, EventPage, EventBook}
use angzarr_router.Errors.Reasons.{Reasons}
use angzarr_router.Context.{has_history}
use angzarr_router.Rebuild.Types.{Rebuilder, RebuildInfo, PageOrigin}
use angzarr_router.Rebuild.Folding.{fold_pages}
use angzarr_router.Rebuild.Rebuilding.{starting_state, rebuild_loop, rebuild_pages, rebuild}
use angzarr_router.Rebuild.Replay.{rebuild_loop-append, fold_pages-rebuild_loop, applicable}

module _ ⦃w : Wire⦄ where
  -- A book with these pages behind its own.
  abbrev pub with_pages : EventBook → List EventPage → EventBook
  with_pages book pages = record book { pages = book.pages ++ pages }

module _ ⦃w : Wire⦄ ⦃r : Reasons⦄ {S : Type 0} (rb : Rebuilder S) where
  -- The steps behind a rebuild through the appliers.
  pub record Rebuilds (book : EventBook) (s : S) (info : RebuildInfo) : Type 0 where
    pub fresh : S
    pub made : rb.factory ≡ ok fresh
    pub start : S
    pub started : starting_state rb book fresh ≡ ok start
    pub looped : rebuild_loop rb book.cover book.pages start 0 ≡ ok (s, info.applied_count)

  pub rebuild-Rebuilds :
      (book : EventBook) (s : S) (info : RebuildInfo)
      → rb.fold ≡ none
      → rebuild rb (some book) ≡ ok (s, info)
      → Rebuilds book s info
  unfolding rebuild rebuild_pages
  rebuild-Rebuilds book s info unbatched h = elim (Outcome-cases rb.factory) [
    | inl (fresh, made) ↦ elim (Outcome-cases (starting_state rb book fresh)) [
      | inl (start, started) ↦ record {
        fresh = fresh;
        made = made;
        start = start;
        started = started;
        looped = elim (Outcome-cases (rebuild_loop rb book.cover book.pages start 0)) [
          | inl (folded, looped) ↦ ground arith
          | inr failed ↦ absurd (ground arith)
        ];
      }
      | inr failed ↦ absurd (ground arith)
    ]
    | inr (inl (e, failed)) ↦ absurd e
    | inr (inr failed) ↦ absurd (ground arith)
  ]

  -- Through the appliers, without a batched fold: where a history rebuilds to a state and more pages
  -- fold onto that, the history with those pages behind it rebuilds to where the fold ends, and the
  -- pages among them that have an applier are counted on.
  pub rebuild-with_pages :
      (book : EventBook) (pages : List EventPage) (origin : PageOrigin) (s s' : S)
      (info : RebuildInfo)
      → rb.fold ≡ none
      → rebuild rb (some book) ≡ ok (s, info)
      → fold_pages rb s pages book.cover origin ≡ (s', ok tt)
      → rebuild rb (some (with_pages book pages))
        ≡ ok (
          s',
          record {
            had_prior_events = has_history (with_pages book pages);
            applied_count = info.applied_count + applicable rb pages;
          },
        )
  unfolding rebuild rebuild_pages starting_state
  rebuild-with_pages book pages origin s s' info unbatched h folds =
      let steps = rebuild-Rebuilds book s info unbatched h in
      let k = info.applied_count in
      let behind = fold_pages-rebuild_loop rb book.cover origin pages s k s' unbatched folds in
      let whole = rebuild_loop-append rb book.cover book.pages pages steps.start 0 in
      let same : starting_state rb (with_pages book pages) steps.fresh ≡ ok steps.start =
        steps.started in
      let loops : rebuild_loop rb book.cover (book.pages ++ pages) steps.start 0
          ≡ ok (s', k + applicable rb pages) =
        rw (whole, steps.looped) behind in
      rw (steps.made) (ground (arith, same, loops))
