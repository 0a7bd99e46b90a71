-- ===== src/Examples/DomainRuns.antt =====
-- The account's dispatches.
use angzarr_router.Prelude.{
  ℕ, ◌≡◌, refl, ◌⊎◌, some, [], ◌∷◌, ok, err, panicked, lookup, true, false,
}
use angzarr_router.Wire.Payload.{untyped}
use angzarr_router.Wire.Requests.{HandleResponse}
use angzarr_router.Wire.Reading.{type_name_from_url}
use angzarr_router.Errors.Types.{CodedError}
use angzarr_router.Errors.Coded.{as_fact_failure, refused}
use angzarr_router.Errors.Codes.{BusinessStatus}
use angzarr_router.Errors.Facts.{IsBug}
use angzarr_router.Context.{command_context}
use angzarr_router.Rebuild.Types.{RebuildInfo}
use angzarr_router.Rebuild.Building.{encode_state}
use angzarr_router.Rebuild.Rebuilding.{rebuild}
use angzarr_router.Rebuild.Extending.{with_pages}
use angzarr_router.Domain.Table.{DomainDispatch, Dispatched, route, on_command}
use angzarr_router.Domain.Deciding.{dispatch}
use angzarr_router.Domain.Persisting.{persisted_pages, dispatch-rebuild}
use angzarr_router.Domain.Panics.{dispatch-eq-panicked}
use angzarr_router.Domain.Routing.{
  input_payload, is_fact_arm, page_of, route-eq-command, route-eq-fact,
}
use angzarr_router.Domain.Registration.{route-on_command}
use angzarr_router.Domain.FactFailures.{dispatch-IsBug}
use angzarr_router.Examples.World.{
  wire, reasons, declared, deposit, settled, deposited, balance, account, counting, history,
  command_request, fact_request, on_deposit, on_settled, fresh_rebuilder,
}
use angzarr_router.Examples.Engine.{engine}

abbrev answer_to_deposit : HandleResponse
answer_to_deposit = record {
  events = deposited 5 ∷ deposited 2 ∷ deposited 1 ∷ [];
  state = some (balance 15);
  rules_version = "v1";
}

deposit_is_answered :
    dispatch counting 4 account (command_request (deposit 5)) ≡ some (ok answer_to_deposit)
unfolding engine
deposit_is_answered = refl

dispatch-rebuild_example :
    (s : ℕ) × (info : RebuildInfo) × (rebuild account.rebuilder (
        some (with_pages history (persisted_pages (command_request (deposit 5)) answer_to_deposit)))
      ≡ ok (s, info))
    × (encode_state account.rebuilder s ≡ ok (some (balance 15)))
unfolding engine
dispatch-rebuild_example =
    dispatch-rebuild counting account 4 (command_request (deposit 5)) answer_to_deposit history
      "acct" refl refl refl deposit_is_answered

abbrev settlement_failure : CodedError
settlement_failure = as_fact_failure (refused BusinessStatus.failed_precondition (balance 7))

settlement_fails :
    dispatch counting 1 account (fact_request (settled 1)) ≡ some (err settlement_failure)
unfolding engine
settlement_fails = refl

dispatch-IsBug_example : IsBug settlement_failure
unfolding engine
dispatch-IsBug_example =
    dispatch-IsBug declared counting account (fact_request (settled 1)) refl 1 settlement_failure
      settlement_fails

-- A rebuilder whose factory panics.
abbrev broken : DomainDispatch ℕ ℕ
unfolding engine
broken = record account { rebuilder = record fresh_rebuilder { factory = panicked } }

dispatch-eq-panicked_example :
    (broken.rebuilder.factory ≡ panicked) ⊎ ((s : ℕ) × (encode_state broken.rebuilder s ≡ panicked))
unfolding engine
dispatch-eq-panicked_example =
    dispatch-eq-panicked counting broken 1 (command_request (deposit 5)) refl

-- Routing.
route-eq-command_example :
    (deposit 5 ≡ input_payload (page_of (command_request (deposit 5))))
    × (lookup (type_name_from_url (deposit 5).type_url) account.handlers ≡ some on_deposit)
    × (is_fact_arm (command_context (command_request (deposit 5))).arm ≡ false)
unfolding engine
route-eq-command_example =
    route-eq-command account (command_request (deposit 5)) on_deposit (deposit 5) refl

route-eq-fact_example :
    (settled 1 ≡ input_payload (page_of (fact_request (settled 1))))
    × (lookup (type_name_from_url (settled 1).type_url) account.facts ≡ some on_settled)
    × (is_fact_arm (command_context (fact_request (settled 1))).arm ≡ true)
unfolding engine
route-eq-fact_example = route-eq-fact account (fact_request (settled 1)) on_settled (settled 1) refl

route-on_command_example :
    route
      (on_command account "acct.Close" on_settled)
      (page_of (command_request (deposit 5)))
      untyped
    ≡ ok (Dispatched.command on_deposit, deposit 5)
unfolding engine
route-on_command_example =
    route-on_command account "acct.Close" on_settled (command_request (deposit 5))
