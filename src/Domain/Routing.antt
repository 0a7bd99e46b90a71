-- ===== src/Domain/Routing.antt =====
-- crates/router/src/domain.rs: `DomainDispatch::route`, and the types that it refuses.
use angzarr_router.Prelude.{
  ℕ, ◌≡◌, Option, none, some, lookup, ok, err, and_then, unwrap_or, Bool, true, false, arith,
}
use angzarr_router.Wire.Payload.{Any, untyped}
use angzarr_router.Wire.Messages.{Wire, CommandPage}
use angzarr_router.Wire.Reading.{type_name_from_url, command_payload}
use angzarr_router.Wire.Requests.{HandleRequest}
use angzarr_router.Errors.Reasons.{AngzarrReason, Reasons}
use angzarr_router.Errors.Coded.{unknown_type}
use angzarr_router.Context.{InputArm, arm_of, command_context}
use angzarr_router.Domain.Emits.{Closures}
use angzarr_router.Domain.Table.{DomainDispatch, Dispatched, HandlerFn, fact_of, route}
use angzarr_router.Domain.Deciding.{dispatch}

module _ ⦃w : Wire⦄ where
  -- The type of an input's payload by its arm; an input with no arm or payload has no type.
  abbrev pub input_payload : Option CommandPage → Any
  input_payload page = elim (fact_of (and_then page (λ p. p.body))) [
    | some f ↦ unwrap_or f.payload untyped
    | none ↦ unwrap_or (and_then page command_payload) untyped
  ]

  -- Whether a context's arm is a fact's.
  abbrev pub is_fact_arm : InputArm → Bool
  is_fact_arm (InputArm.fact _) = true
  is_fact_arm (InputArm.command _) = false

  -- The page of a request's input.
  abbrev pub page_of : HandleRequest → Option CommandPage
  page_of req = and_then req.input (λ b. b.page)

module _ ⦃w : Wire⦄ ⦃r : Reasons⦄ {S K : Type 0} (d : DomainDispatch S K) where
  -- An input is routed to a command handler only if the commands have one for its payload's type,
  -- and then the context that the handler is given has the command arm.
  pub route-eq-command :
      (req : HandleRequest) (thunk : HandlerFn S K) (any : Any)
      → route d (page_of req) untyped ≡ ok (Dispatched.command thunk, any)
      → (any ≡ input_payload (page_of req))
        × (lookup (type_name_from_url any.type_url) d.handlers ≡ some thunk)
        × (is_fact_arm (command_context req).arm ≡ false)
  unfolding route command_context arm_of
  route-eq-command req thunk any h = (ground arith, ground arith, ground arith)

  -- An input is routed to a fact handler only if the facts have one for its payload's type, and then
  -- the context that the handler is given has the fact arm.
  pub route-eq-fact :
      (req : HandleRequest) (thunk : HandlerFn S K) (any : Any)
      → route d (page_of req) untyped ≡ ok (Dispatched.fact thunk, any)
      → (any ≡ input_payload (page_of req))
        × (lookup (type_name_from_url any.type_url) d.facts ≡ some thunk)
        × (is_fact_arm (command_context req).arm ≡ true)
  unfolding route command_context arm_of
  route-eq-fact req thunk any h = (ground arith, ground arith, ground arith)

module _ ⦃w : Wire⦄ ⦃r : Reasons⦄ {S K : Type 0} (closures : Closures S K)
    (d : DomainDispatch S K) where
  -- A command of a type with no command handler, or an input of no type, is refused as an unknown
  -- command type, whatever the history, and whatever fact handlers there are.
  dispatch_unknown_command :
      (fuel : ℕ) (req : HandleRequest)
      → is_fact_arm (command_context req).arm ≡ false
      → lookup (type_name_from_url (input_payload (page_of req)).type_url) d.handlers ≡ none
      → dispatch closures fuel d req
        ≡ some (
            err (
              unknown_type AngzarrReason.unknown_command_type
                (input_payload (page_of req)).type_url))
  unfolding dispatch route command_context arm_of
  dispatch_unknown_command fuel req arm missing = ground arith

  -- A fact of a type with no fact handler is refused as one without a handler, whatever the history,
  -- and whatever command handlers there are.
  dispatch_no_fact_handler :
      (fuel : ℕ) (req : HandleRequest)
      → is_fact_arm (command_context req).arm ≡ true
      → lookup (type_name_from_url (input_payload (page_of req)).type_url) d.facts ≡ none
      → dispatch closures fuel d req
        ≡ some (
            err (unknown_type AngzarrReason.no_fact_handler (input_payload (page_of req)).type_url))
  unfolding dispatch route command_context arm_of
  dispatch_no_fact_handler fuel req arm missing = ground arith
