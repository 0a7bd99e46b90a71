-- ===== src/Examples/World.antt =====
-- The account of the examples: what core's types and its catalog are there, and the account's
-- rebuilder, handlers and requests.
use angzarr_router.Prelude.{
  ℕ, zero, suc, ◌+◌, String, refl, none, some, [], ◌∷◌, first, Outcome, ok, err,
}
use angzarr_router.Prelude.Int.{pos}
use angzarr_router.Wire.Payload.{Any, untyped}
use angzarr_router.Wire.Messages.{Wire, DeliveryBody, PageBody, EventPage, EventBook, CommandBody}
use angzarr_router.Wire.Requests.{HandleRequest}
use angzarr_router.Errors.Codes.{ReasonSurface, BusinessStatus, RefusalStatus}
use angzarr_router.Errors.Reasons.{AngzarrReason, Reasons, HandleReasons}
use angzarr_router.Errors.Types.{HandlerError, AnyError}
use angzarr_router.Errors.Coded.{refused}
use angzarr_router.Rebuild.Types.{ApplierFn, Rebuilder}
use angzarr_router.Rebuild.Building.{
  new_rebuilder, with_state_codec, with_state_type, apply_with_context,
}
use angzarr_router.Domain.Emits.{StepFn, Closures}
use angzarr_router.Domain.Table.{
  HandlerFn, DomainDispatch, new_aggregate, on_command, on_fact, with_rules_version,
}

instance abbrev pub wire : Wire
wire = record {
  Uuid = ℕ;
  Timestamp = ℕ;
  EventRef = ℕ;
  FactOrigin = ℕ;
  MetaEvent = ℕ;
  Descriptor = String;
  Cover = String;
  cover_domain = λ c. c;
  default_cover = "";
  Delivery = DeliveryBody;
  delivery_body = λ d. some d;
  default_delivery = DeliveryBody.command untyped;
}

abbrev name_of : AngzarrReason → String
name_of AngzarrReason.fold_failed = "ANGZARR_REASON_FOLD_FAILED"
name_of AngzarrReason.fold_failed_emitted = "ANGZARR_REASON_FOLD_FAILED_EMITTED"
name_of AngzarrReason.handler_panicked = "ANGZARR_REASON_HANDLER_PANICKED"
name_of AngzarrReason.unhandled_handler_error = "ANGZARR_REASON_UNHANDLED_HANDLER_ERROR"
name_of AngzarrReason.command_refused = "ANGZARR_REASON_COMMAND_REFUSED"
name_of AngzarrReason.persisted_event_corrupt = "ANGZARR_REASON_PERSISTED_EVENT_CORRUPT"
name_of AngzarrReason.any_decode_failed = "ANGZARR_REASON_ANY_DECODE_FAILED"
name_of AngzarrReason.unknown_command_type = "ANGZARR_REASON_UNKNOWN_COMMAND_TYPE"
name_of AngzarrReason.no_fact_handler = "ANGZARR_REASON_NO_FACT_HANDLER"
name_of AngzarrReason.no_refusal_handler = "ANGZARR_REASON_NO_REFUSAL_HANDLER"
name_of AngzarrReason.no_handlers_registered = "ANGZARR_REASON_NO_HANDLERS_REGISTERED"
name_of AngzarrReason.duplicate_component = "ANGZARR_REASON_DUPLICATE_COMPONENT"
name_of AngzarrReason.no_component_of_kind = "ANGZARR_REASON_NO_COMPONENT_OF_KIND"

abbrev status_of : AngzarrReason → ℕ
status_of AngzarrReason.persisted_event_corrupt = 15
status_of AngzarrReason.command_refused = 9
status_of AngzarrReason.any_decode_failed = 3
status_of _ = 13

abbrev number_of : RefusalStatus → ℕ
number_of RefusalStatus.unspecified = 0
number_of RefusalStatus.invalid_argument = 3
number_of RefusalStatus.not_found = 5
number_of RefusalStatus.already_exists = 6
number_of RefusalStatus.permission_denied = 7
number_of RefusalStatus.failed_precondition = 9
number_of RefusalStatus.out_of_range = 11

instance abbrev pub reasons : Reasons
reasons = record {
  as_str_name = name_of;
  surface = λ reason. some (ReasonSurface.grpc_status (pos (status_of reason)));
  refusal_number = λ s. pos (number_of s);
  type_url_arg = "type_url";
  message_type_arg = "message_type";
  ext_err_txt_arg = "ext_err_txt";
  sequence_arg = "sequence";
  first_sequence_arg = "first_sequence";
  last_sequence_arg = "last_sequence";
  state_type_url_arg = "state_type_url";
  cause_arg = "cause";
  refusal_type_arg = "refusal_type";
  command_type_arg = "command_type";
  registered_arg = "registered";
  refused_arg = "refused";
}

pub declared : HandleReasons reasons
declared = record {
  unhandled = refl;
  unknown_command = refl;
  no_fact = refl;
  fold = refl;
  fold_emitted = refl;
  corrupt = refl;
}

-- Payloads, and the amount that one holds.
abbrev pub deposit : ℕ → Any
deposit n = record { type_url = "type.example/acct.Deposit"; value = n ∷ [] }

abbrev pub settled : ℕ → Any
settled n = record { type_url = "/acct.Settled"; value = n ∷ [] }

abbrev pub deposited : ℕ → Any
deposited n = record { type_url = "/acct.Deposited"; value = n ∷ [] }

abbrev pub empty_deposit : Any
empty_deposit = record { type_url = "/acct.Deposited"; value = [] }

abbrev pub balance : ℕ → Any
balance n = record { type_url = "/acct.Balance"; value = n ∷ [] }

abbrev pub read : Any → Outcome AnyError ℕ
read any = elim (first any.value) [ some n ↦ ok n | none ↦ err (AnyError.other "no amount") ]

abbrev pub on_deposited : ApplierFn ℕ
on_deposited state any ctx = elim (first any.value) [
  | some n ↦ (state + n, ok tt)
  | none ↦ (state, err (AnyError.other "no amount"))
]

abbrev pub fresh_rebuilder : Rebuilder ℕ
unfolding new_rebuilder with_state_codec with_state_type apply_with_context
fresh_rebuilder =
    apply_with_context
      (with_state_type (with_state_codec (new_rebuilder (ok 0)) read (λ n. ok (balance n)))
        "acct.Balance")
      "acct.Deposited" on_deposited

-- A deposit's handler, whose emit goes on with a countdown; a settlement's, which refuses nought.
abbrev pub on_deposit : HandlerFn ℕ ℕ
on_deposit any state ctx = elim (first any.value) [
  | some n ↦ ok (record { events = deposited n ∷ []; next = some (StepFn.step 2) })
  | none ↦ err (HandlerError.other "no amount")
]

abbrev pub on_settled : HandlerFn ℕ ℕ
unfolding refused
on_settled any state ctx =
    err (HandlerError.coded (refused BusinessStatus.failed_precondition (balance state)))

-- The closure `k` deposits `k` and goes on with the ones below it.
abbrev pub counting : Closures ℕ ℕ
counting zero state ctx = ok (record { events = []; next = none })
counting (suc k) state ctx =
    ok (record { events = deposited (suc k) ∷ []; next = some (StepFn.step k) })

abbrev pub account : DomainDispatch ℕ ℕ
unfolding new_aggregate on_command on_fact with_rules_version
account =
    with_rules_version
      (on_fact
        (on_command (new_aggregate "account" "acct" fresh_rebuilder) "acct.Deposit" on_deposit)
        "acct.Settled" on_settled)
      "v1"

-- Pages, a history of two deposits, and requests.
abbrev pub page : Any → ℕ → EventPage
page event sequence = record {
  body = some (PageBody.event event);
  meta = none;
  sequence = sequence;
}

abbrev pub history : EventBook
history = record {
  cover = some "acct";
  pages = page (deposited 3) 0 ∷ page (deposited 4) 1 ∷ [];
  snapshot = none;
  next_sequence = 2;
}

abbrev pub command_request : Any → HandleRequest
command_request payload = record {
  input = some (record {
    cover = some "acct";
    page = some (record {
      body = some (CommandBody.command (record { payload = some payload; handling = none }));
      command_id = some 7;
      correlation_id = none;
    });
  });
  history = some history;
  recorded_at = some 100;
  causation = none;
}

abbrev pub fact_request : Any → HandleRequest
fact_request payload = record {
  input = some (record {
    cover = some "acct";
    page = some (record {
      body = some (CommandBody.fact (record { payload = some payload; origin = some 1 }));
      command_id = some 8;
      correlation_id = none;
    });
  });
  history = some history;
  recorded_at = some 100;
  causation = none;
}
