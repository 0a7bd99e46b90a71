-- ===== src/Domain/Registration.antt =====
-- crates/router/src/domain.rs: what registering a handler changes of the routing.
use angzarr_router.Prelude.{String, ◌≡◌, lookup-insert, ok, arith, ◌==◌, if◌then◌else◌}
use angzarr_router.Wire.Payload.{Any, untyped}
use angzarr_router.Wire.Messages.{Wire}
use angzarr_router.Wire.Reading.{type_name_from_url}
use angzarr_router.Wire.Requests.{HandleRequest}
use angzarr_router.Errors.Reasons.{Reasons}
use angzarr_router.Context.{arm_of}
use angzarr_router.Domain.Table.{DomainDispatch, Dispatched, HandlerFn, on_command, on_fact, route}
use angzarr_router.Domain.Routing.{input_payload, page_of, is_fact_arm}

module _ ⦃w : Wire⦄ ⦃r : Reasons⦄ {S K : Type 0} (d : DomainDispatch S K) (name : String)
    (thunk : HandlerFn S K) (req : HandleRequest) where
  abbrev payload : Any
  payload = input_payload (page_of req)

  -- Registering a command handler sends it exactly the commands of its type, and leaves the routing
  -- of every other command, and of every fact, as it was.
  pub route-on_command : route (on_command d name thunk) (page_of req) untyped ≡ (
      if is_fact_arm (arm_of (page_of req))
      then route d (page_of req) untyped
      else (if name == type_name_from_url payload.type_url
          then ok (Dispatched.command thunk, payload)
          else route d (page_of req) untyped))
  unfolding route on_command arm_of
  route-on_command =
      ground (arith, lookup-insert name (type_name_from_url payload.type_url) thunk d.handlers)

  -- Registering a fact handler sends it exactly the facts of its type, and leaves the routing of
  -- every other fact, and of every command, as it was.
  route-on_fact : route (on_fact d name thunk) (page_of req) untyped ≡ (
      if is_fact_arm (arm_of (page_of req))
      then (if name == type_name_from_url payload.type_url
          then ok (Dispatched.fact thunk, payload)
          else route d (page_of req) untyped)
      else route d (page_of req) untyped)
  unfolding route on_fact arm_of
  route-on_fact =
      ground (arith, lookup-insert name (type_name_from_url payload.type_url) thunk d.facts)
