-- ===== src/Policy.antt =====
-- crates/router/src/policy.rs: a policy's reaction to one event, and its one refusal callback.
pub mod Reacting
use angzarr_router.Prelude.{
  ℕ, String, Option, none, some, List, [], ◌∷◌, Dict, lookup, insert, keys, first, Outcome, ok, err,
  panicked, ◌>>=◌, and_then, map_option, unwrap_or,
}
use angzarr_router.Prelude.Int.{pos}
use angzarr_router.Wire.Payload.{Any, untyped}
use angzarr_router.Wire.Messages.{Wire, DeliveryBody, EventPage, EventBook}
use angzarr_router.Wire.Requests.{
  OutputBody, Output, ReactRequest, ReactResponse, TranslateRequest, TranslateResponse,
}
use angzarr_router.Wire.Reading.{type_name_from_url, page_event, PageContext}
use angzarr_router.Errors.Reasons.{AngzarrReason, Reasons}
use angzarr_router.Errors.Types.{CodedError, HandlerError, Refusal}
use angzarr_router.Errors.Coded.{keyed, call_handler}

-- `Refusal::default()`.
abbrev pub default_refusal : Refusal
default_refusal = record { status = pos 0; typed = none }

module _ ⦃w : Wire⦄ where
  -- `EventFn`.
  abbrev pub EventFn : Type 0
  EventFn = Any → PageContext → Outcome HandlerError (List Output)

  -- `command` and `fact`.
  unfoldable pub command : Option w.Uuid → Any → Output
  command root payload = record { root = root; body = some (OutputBody.command payload) }

  unfoldable pub fact : Option w.Uuid → Any → Output
  fact root payload = record { root = root; body = some (OutputBody.fact payload) }

  -- `RefusalContext`.
  pub record RefusalContext : Type 0 where
    pub trigger : PageContext
    pub delivery : w.Delivery

  -- `RefusalFn`.
  abbrev pub RefusalFn : Type 0
  RefusalFn = Any → Refusal → RefusalContext → Outcome HandlerError Any

  -- `PolicyDispatch`.
  pub record PolicyDispatch : Type 0 where
    pub name : String
    pub input_domain : String
    pub output_domain : String
    pub handlers : Dict EventFn
    pub refused : Option RefusalFn

  -- `PolicyDispatch::new`.
  unfoldable pub new_policy : String → String → String → PolicyDispatch
  new_policy name input_domain output_domain = record {
    name = name;
    input_domain = input_domain;
    output_domain = output_domain;
    handlers = [];
    refused = none;
  }

  -- `PolicyDispatch::on_event`.
  unfoldable pub on_event : PolicyDispatch → String → EventFn → PolicyDispatch
  unfolding insert
  on_event p full_name thunk = record p { handlers = insert full_name thunk p.handlers }

  -- `PolicyDispatch::on_refused`.
  unfoldable pub on_refused : PolicyDispatch → RefusalFn → PolicyDispatch
  on_refused p thunk = record p { refused = some thunk }

  -- `PolicyDispatch::event_types`.
  unfoldable pub event_types : PolicyDispatch → List String
  event_types p = keys p.handlers

  -- `ReactResponse::default()`.
  abbrev pub default_react : ReactResponse
  default_react = record { outputs = [] }

  -- The first page of a book that holds a domain event, and that event.
  abbrev pub first_event : EventBook → Option (EventPage × Any)
  first_event trigger =
      and_then (first trigger.pages) (λ page. map_option (λ event. (page, event)) (page_event page))

  -- A delivered command's payload: what either arm of its body holds.
  abbrev pub body_payload : Option DeliveryBody → Any
  body_payload (some (DeliveryBody.command any)) = any
  body_payload (some (DeliveryBody.fact any)) = any
  body_payload none = untyped

  -- The context of a refusal's callback.
  abbrev pub refusal_context : TranslateRequest → w.Delivery → RefusalContext
  refusal_context req delivery =
      let page = and_then req.trigger (λ t. first t.pages) in
      record {
        trigger = record {
          cover = and_then req.trigger (λ t. t.cover);
          sequence = unwrap_or (map_option (λ p. p.sequence) page) 0;
          meta = and_then page (λ p. p.meta);
        };
        delivery = delivery;
      }

  module _ ⦃r : Reasons⦄ where
    -- The handler's run in `PolicyDispatch::react`, on the trigger's page and event.
    abbrev pub react_on :
        PolicyDispatch → EventBook → EventPage → Any → Outcome CodedError ReactResponse
    react_on p trigger page event = elim (lookup (type_name_from_url event.type_url) p.handlers) [
      | none ↦ ok default_react
      | some thunk ↦
          call_handler (
            thunk event
              (record { cover = trigger.cover; sequence = page.sequence; meta = page.meta }))
          >>= λ outputs. ok (record { outputs = outputs })
    ]

    -- `PolicyDispatch::react`.
    unfoldable pub react : PolicyDispatch → ReactRequest → Outcome CodedError ReactResponse
    react p req = elim req.trigger [
      | none ↦ ok default_react
      | some trigger ↦ elim (first_event trigger) [
        | none ↦ ok default_react
        | some (page, event) ↦ react_on p trigger page event
      ]
    ]

    -- `PolicyDispatch::translate`.
    unfoldable pub translate :
        PolicyDispatch → TranslateRequest → Outcome CodedError TranslateResponse
    translate p req =
        let delivery = unwrap_or req.command w.default_delivery in
        let command = body_payload (w.delivery_body delivery) in
        elim p.refused [
          | none ↦
              err (
                keyed AngzarrReason.no_refusal_handler
                  ((r.command_type_arg, command.type_url) ∷ []))
          | some refused ↦
              call_handler (
                refused command (unwrap_or req.refusal default_refusal)
                  (refusal_context req delivery))
              >>= λ fact. ok (record { fact = some fact })
        ]
