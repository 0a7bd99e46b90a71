-- ===== src/Examples/UpcasterRuns.antt =====
-- An upcaster with two rules that answer one another's types.
use angzarr_router.Prelude.{◌≡◌, refl, none, some, List, [], ◌∷◌, Outcome, ok}
use angzarr_router.Wire.Payload.{Any}
use angzarr_router.Wire.Messages.{EventPage, PageBody}
use angzarr_router.Wire.Requests.{UpcastInput, UpcastKey, Upcasted}
use angzarr_router.Errors.Types.{CodedError}
use angzarr_router.Upcaster.{RuleFn, UpcasterDispatch, new_upcaster, rule, upcast, dispatch}
use angzarr_router.Upcaster.Termination.{Answered, upcast_total, dispatch-Answered}
use angzarr_router.Upcaster.Bringing.{
  Brought, upcast-Brought, AllAnswered, upcast_pages-AllAnswered,
}
use angzarr_router.Examples.World.{wire, reasons, page, deposited}
use angzarr_router.Examples.Engine.{engine}

abbrev to_deposited : RuleFn
to_deposited any = ok (record any { type_url = "/acct.Deposited" })

abbrev to_settled : RuleFn
to_settled any = ok (record any { type_url = "/acct.Settled" })

abbrev ring : UpcasterDispatch
unfolding engine
ring =
    rule (rule (new_upcaster "ring" "acct") "acct.Deposited" to_settled) "acct.Settled" to_deposited

upcast-Brought_example : Brought ring.rules [] (deposited 5) (deposited 5)
unfolding engine
upcast-Brought_example = upcast-Brought ring (deposited 5) (deposited 5) refl

upcast_total_example : (out : Outcome CodedError Any) × (upcast ring (deposited 5) ≡ some out)
unfolding engine
upcast_total_example = upcast_total ring (deposited 5)

abbrev pages : List EventPage
pages =
    page (deposited 3) 0
    ∷ record { body = some (PageBody.meta_event 1); meta = none; sequence = 1 }
    ∷ []

abbrev answers : List Upcasted
answers =
    record { key = some (UpcastKey.sequence 0); payload = some (deposited 3) }
    ∷ record { key = some (UpcastKey.sequence 1); payload = none }
    ∷ []

upcast_pages-AllAnswered_example : AllAnswered ring pages answers
unfolding engine
upcast_pages-AllAnswered_example = upcast_pages-AllAnswered ring pages answers refl

dispatch-Answered_example :
    Answered (dispatch ring (record { input = some (UpcastInput.pages pages) }))
dispatch-Answered_example =
    dispatch-Answered ring (record { input = some (UpcastInput.pages pages) })
