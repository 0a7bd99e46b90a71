-- ===== src/Examples/RebuildRuns.antt =====
-- The account's rebuilds.
use angzarr_router.Prelude.{
  get_elem?, ◌-◌, ◌%◌, ◌^◌, ◌≡◌, ◌↔◌, refl, none, some, List, [], ◌∷◌, ok, panicked,
}
use angzarr_router.Wire.Messages.{PageBody, EventMeta, EventPage}
use angzarr_router.Errors.Types.{CodedError}
use angzarr_router.Context.{command_context, event_meta, has_history}
use angzarr_router.Rebuild.Types.{PageOrigin}
use angzarr_router.Rebuild.Failures.{page_fold_error}
use angzarr_router.Rebuild.Folding.{fold_pages, number_pages}
use angzarr_router.Rebuild.Rebuilding.{rebuild_loop, rebuild}
use angzarr_router.Rebuild.Replay.{rebuild_loop-fold_pages_iff}
use angzarr_router.Rebuild.Extending.{with_pages, rebuild-with_pages}
use angzarr_router.Rebuild.Numbering.{get_elem?-number_pages}
use angzarr_router.Rebuild.Panics.{rebuild-eq-panicked_iff}
use angzarr_router.Rebuild.Naming.{StopsAt, fold_pages-StopsAt}
use angzarr_router.Rebuild.Bugs.{rebuild-IsBug}
use angzarr_router.Errors.Facts.{IsBug}
use angzarr_router.Examples.World.{
  wire, reasons, declared, deposit, deposited, empty_deposit, fresh_rebuilder, page, history,
  command_request,
}
use angzarr_router.Examples.Engine.{engine}

abbrev more : List EventPage
more = page (deposited 5) 2 ∷ []

rebuild-with_pages_example :
    rebuild fresh_rebuilder (some (with_pages history more))
    ≡ ok
        (12, record { had_prior_events = has_history (with_pages history more); applied_count = 3 })
unfolding engine
rebuild-with_pages_example =
    rebuild-with_pages fresh_rebuilder history more PageOrigin.emitted 7 12
      (record { had_prior_events = has_history history; applied_count = 2 }) refl refl refl

-- Two deposits, one with no amount between them.
abbrev failing : List EventPage
failing = page (deposited 3) 0 ∷ page empty_deposit 1 ∷ page (deposited 4) 2 ∷ []

abbrev named_failure : CodedError
named_failure = page_fold_error PageOrigin.persisted (page empty_deposit 1) "/acct.Balance" none

fold_pages-StopsAt_example :
    StopsAt fresh_rebuilder (some "acct") PageOrigin.persisted failing 0 3 named_failure
unfolding engine
fold_pages-StopsAt_example =
    fold_pages-StopsAt fresh_rebuilder (some "acct") PageOrigin.persisted failing 0 3 named_failure
      refl refl

rebuild-IsBug_example : IsBug named_failure
unfolding engine
rebuild-IsBug_example =
    rebuild-IsBug declared fresh_rebuilder (some (record history { pages = failing })) named_failure
      refl

rebuild-eq-panicked_iff_example :
    (rebuild fresh_rebuilder (some history) ≡ panicked) ↔ (fresh_rebuilder.factory ≡ panicked)
unfolding engine
rebuild-eq-panicked_iff_example = rebuild-eq-panicked_iff fresh_rebuilder (some history)

rebuild_loop-fold_pages_iff_example :
    (rebuild_loop fresh_rebuilder (some "acct") history.pages 0 0 ≡ ok (7, 2))
    ↔ (fold_pages fresh_rebuilder 0 history.pages (some "acct") PageOrigin.emitted ≡ (7, ok tt))
unfolding engine
rebuild_loop-fold_pages_iff_example =
    rebuild_loop-fold_pages_iff fresh_rebuilder (some "acct") PageOrigin.emitted history.pages 0 0 7
      refl

abbrev meta : EventMeta
meta = event_meta (command_context (command_request (deposit 5))) "v1"

get_elem?-number_pages_example :
    get_elem? (number_pages (deposited 1 ∷ deposited 2 ∷ []) ((2 ^ 64 - 1) % 2 ^ 64) meta) 1
    ≡ some (record { body = some (PageBody.event (deposited 2)); meta = some meta; sequence = 0 })
get_elem?-number_pages_example =
    get_elem?-number_pages meta (deposited 1 ∷ deposited 2 ∷ []) (2 ^ 64 - 1) 1
