-- ===== src/Examples/ProjectorRuns.antt =====
-- A projector that counts deposits.
use angzarr_router.Prelude.{ℕ, suc, ◌≡◌, refl, some, [], ◌∷◌, ok, panicked}
use angzarr_router.Wire.Requests.{ProjectRequest}
use angzarr_router.Projector.{
  EventFn, BatchFoldFn, FinishFn, ProjectorDispatch, new_projector, on_event, for_domains,
  with_fold, with_finish, dispatch,
}
use angzarr_router.Projector.Folding.{dispatch_unbatched-panicked}
use angzarr_router.Examples.World.{wire, reasons, balance, history}
use angzarr_router.Examples.Engine.{engine}

abbrev count : EventFn ℕ
count n any ctx = (suc n, ok tt)

abbrev pack : FinishFn ℕ
pack n events = (n, ok (balance n))

abbrev counter : ProjectorDispatch ℕ
unfolding new_projector on_event for_domains with_finish engine
counter =
    for_domains
      (with_finish (on_event (new_projector "counter" (ok 0)) "acct.Deposited" count) pack)
      ("acct" ∷ [])

abbrev elsewhere : ProjectRequest
elsewhere = record { events = some (record history { cover = some "orders" }) }

-- A batched fold that panics.
abbrev unwinding : BatchFoldFn ℕ
unwinding n pages cover = (n, panicked)

abbrev batched : ProjectorDispatch ℕ
unfolding new_projector on_event for_domains with_finish with_fold engine
batched = with_fold counter unwinding

batched_unwinds : dispatch batched (record { events = some history }) ≡ panicked
unfolding dispatch engine new_projector on_event for_domains with_finish with_fold
batched_unwinds = refl

-- A projector whose factory panics.
abbrev broken : ProjectorDispatch ℕ
unfolding new_projector engine
broken = new_projector "broken" panicked

dispatch_unbatched-panicked_example : broken.factory ≡ panicked
unfolding new_projector engine dispatch
dispatch_unbatched-panicked_example =
    dispatch_unbatched-panicked broken (record { events = some history }) refl refl
