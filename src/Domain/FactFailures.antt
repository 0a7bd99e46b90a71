-- ===== src/Domain/FactFailures.antt =====
-- crates/router/src/domain.rs: the errors that a dispatched fact is answered with.
use angzarr_router.Prelude.{
  ℕ, ◌≡◌, inl, inr, some, List, [], ◌∷◌, Outcome, ok, err, panicked, true, arith, Option-cases,
  Outcome-cases,
}
use angzarr_router.Wire.Payload.{Any, untyped}
use angzarr_router.Wire.Messages.{Wire}
use angzarr_router.Wire.Requests.{HandleRequest}
use angzarr_router.Errors.Reasons.{AngzarrReason, Reasons, HandleReasons}
use angzarr_router.Errors.Types.{CodedError}
use angzarr_router.Errors.Coded.{unknown_type, as_fact_failure}
use angzarr_router.Errors.Facts.{IsBug, keyed-IsBug_internal, as_fact_failure-IsBug}
use angzarr_router.Context.{arm_of, command_context}
use angzarr_router.Rebuild.Building.{encode_state}
use angzarr_router.Rebuild.Rebuilding.{rebuild}
use angzarr_router.Rebuild.Bugs.{rebuild-IsBug}
use angzarr_router.Domain.Emits.{Closures}
use angzarr_router.Domain.Table.{DomainDispatch, Dispatched, HandlerFn, route}
use angzarr_router.Domain.Deciding.{decision_cover, answer, decide, dispatch_routed, dispatch}
use angzarr_router.Domain.Routing.{input_payload, page_of, is_fact_arm}

module _ ⦃w : Wire⦄ ⦃r : Reasons⦄ (declared : HandleReasons r) {S K : Type 0}
    (closures : Closures S K) (d : DomainDispatch S K) (req : HandleRequest)
    (is_fact : is_fact_arm (command_context req).arm ≡ true) where
  route-IsBug : (e : CodedError) → route d (page_of req) untyped ≡ err e → IsBug e
  unfolding route command_context arm_of unknown_type
  route-IsBug e h =
      let url = (input_payload (page_of req)).type_url in
      let same : unknown_type AngzarrReason.no_fact_handler url ≡ e = ground arith in
      rw (← same) (
        keyed-IsBug_internal AngzarrReason.no_fact_handler ((r.type_url_arg, url) ∷ [])
          declared.no_fact)

  answer-IsBug :
      (thunk : HandlerFn S K) (s : S) (o : Outcome CodedError (List Any)) (e : CodedError)
      → answer d (Dispatched.fact thunk) (s, o) ≡ err e
      → IsBug e
  answer-IsBug thunk s (ok events) e h = elim (Outcome-cases (encode_state d.rebuilder s)) [
    | inl encoded ↦ absurd (ground arith)
    | inr (inl (never, failed)) ↦ absurd never
    | inr (inr unwound) ↦ absurd (ground arith)
  ]
  answer-IsBug thunk s (err e1) e h =
      let same : as_fact_failure e1 ≡ e = cc in
      rw (← same) (as_fact_failure-IsBug e1 declared.unhandled)
  answer-IsBug thunk s panicked e h = cc

  dispatch_routed-IsBug :
      (fuel : ℕ) (dispatched : Dispatched S K) (any : Any) (e : CodedError)
      → route d (page_of req) untyped ≡ ok (dispatched, any)
      → dispatch_routed closures fuel d req dispatched any ≡ some (err e)
      → IsBug e
  unfolding dispatch_routed route command_context arm_of
  dispatch_routed-IsBug fuel (Dispatched.command thunk) any e routed h = absurd (ground arith)
  dispatch_routed-IsBug fuel (Dispatched.fact thunk) any e routed h =
      elim (Outcome-cases (rebuild d.rebuilder req.history)) [
        | inl ((start, info), rebuilt) ↦
            elim (Option-cases
              (decide closures fuel d thunk any start (command_context req) (decision_cover req))) [
                | inl out ↦ absurd (ground arith)
                | inr ((s, o), decided) ↦ answer-IsBug thunk s o e (ground arith)
              ]
        | inr (inl (e1, fails)) ↦ rebuild-IsBug declared d.rebuilder req.history e (ground arith)
        | inr (inr unwound) ↦ absurd (ground arith)
      ]

  -- Every error that a fact's dispatch answers is a bug: never a re-run, never a business status,
  -- never a refusal object, whatever its handler and its continuations fail with. For a catalog with
  -- the statuses that the documentation gives.
  pub dispatch-IsBug :
      (fuel : ℕ) (e : CodedError) → dispatch closures fuel d req ≡ some (err e) → IsBug e
  unfolding dispatch
  dispatch-IsBug fuel e h = elim (Outcome-cases (route d (page_of req) untyped)) [
    | inl ((dispatched, any), routed) ↦
        dispatch_routed-IsBug fuel dispatched any e routed (ground arith)
    | inr (inl (e1, fails)) ↦ route-IsBug e (ground arith)
    | inr (inr unwound) ↦ absurd (ground arith)
  ]
