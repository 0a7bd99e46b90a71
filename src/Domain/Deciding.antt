-- ===== src/Domain/Deciding.antt =====
-- crates/router/src/domain.rs: a decision, `Handle`, and the step-idempotence check. The source has
-- no step cap, so the loop of a decision takes fuel here, and `none` says that it ran out.
use angzarr_router.Prelude.{
  ℕ, zero, suc, ◌+◌, ◌%◌, ◌^◌, Option, none, some, List, [], ◌++◌, length, is_empty, Outcome, ok,
  err, panicked, ◌>>=◌, map_err, infallible, and_then, or_option, true, false,
}
use angzarr_router.Wire.Payload.{Any, untyped}
use angzarr_router.Wire.Messages.{Wire}
use angzarr_router.Wire.Requests.{HandleRequest, HandleResponse}
use angzarr_router.Errors.Reasons.{Reasons}
use angzarr_router.Errors.Types.{CodedError, HandlerError}
use angzarr_router.Errors.Coded.{as_fact_failure, call_handler}
use angzarr_router.Context.{CommandContext, event_meta, command_context}
use angzarr_router.Rebuild.Types.{Mutation}
use angzarr_router.Rebuild.Building.{encode_state}
use angzarr_router.Rebuild.Folding.{apply_emitted}
use angzarr_router.Rebuild.Rebuilding.{rebuild}
use angzarr_router.Domain.Emits.{Emit, Continues, continues, Closures, run_step}
use angzarr_router.Domain.Table.{DomainDispatch, Dispatched, HandlerFn, route}

-- `NotIdempotent`.
pub data NotIdempotent : Type 0 where
  failed : CodedError → NotIdempotent
  emitted_again : List Any → NotIdempotent
  continued_again : NotIdempotent

module _ ⦃w : Wire⦄ where
  -- The cover that `DomainDispatch::dispatch` folds emitted events with.
  abbrev pub decision_cover : HandleRequest → Option w.Cover
  decision_cover req = or_option (and_then req.history (λ b. b.cover)) (command_context req).cover

module _ ⦃w : Wire⦄ ⦃r : Reasons⦄ {S K : Type 0} where
  -- The handler that a routed input runs, and what is made of its error.
  abbrev pub handler_of : Dispatched S K → HandlerFn S K
  handler_of (Dispatched.command thunk) = thunk
  handler_of (Dispatched.fact thunk) = thunk

  abbrev pub failure_of : Dispatched S K → CodedError → CodedError
  failure_of (Dispatched.command _) e = e
  failure_of (Dispatched.fact _) e = as_fact_failure e

  -- The answer of `DomainDispatch::dispatch` once the decision has ended.
  abbrev pub answer :
      DomainDispatch S K
      → Dispatched S K
      → Mutation S CodedError (List Any)
      → Outcome CodedError HandleResponse
  answer d dispatched (state, outcome) = do
    events ← map_err (failure_of dispatched) outcome
    encoded ← infallible (encode_state d.rebuilder state)
    ok (record { events = events; state = encoded; rules_version = d.rules_version })

module _ ⦃w : Wire⦄ ⦃r : Reasons⦄ {S K : Type 0} (closures : Closures S K) where
  -- The loop of `DomainDispatch::decide`, at the top of a round: the state, the events answered so
  -- far, and the emit to take. The sequence is a u64, which wraps as in a release build.
  unfoldable pub decide_loop :
      ℕ
      → DomainDispatch S K
      → S
      → CommandContext
      → Option w.Cover
      → List Any
      → Emit K
      → Option (Mutation S CodedError (List Any))
  decide_loop zero d state ctx cover answered emit = none
  decide_loop (suc fuel) d state ctx cover answered emit =
      let at = (ctx.next_sequence + length answered) % 2 ^ 64 in
      let (state', folded) =
        apply_emitted d.rebuilder state emit.events cover at (event_meta ctx d.rules_version) in
      elim folded [
        | err e ↦ some (state', err e)
        | panicked ↦ some (state', panicked)
        | ok _ ↦ elim emit.next [
          | none ↦ some (state', ok (answered ++ emit.events))
          | some continuation ↦ elim (call_handler (run_step closures continuation state' ctx)) [
            | ok emit' ↦ decide_loop fuel d state' ctx cover (answered ++ emit.events) emit'
            | err e ↦ some (state', err e)
            | panicked ↦ some (state', panicked)
          ]
        ]
      ]

  -- `DomainDispatch::decide`.
  unfoldable pub decide :
      ℕ
      → DomainDispatch S K
      → HandlerFn S K
      → Any
      → S
      → CommandContext
      → Option w.Cover
      → Option (Mutation S CodedError (List Any))
  decide fuel d thunk any state ctx cover = elim (call_handler (thunk any state ctx)) [
    | ok emit ↦ decide_loop fuel d state ctx cover [] emit
    | err e ↦ some (state, err e)
    | panicked ↦ some (state, panicked)
  ]

  -- What follows the routing in `DomainDispatch::dispatch`: rebuild, decide, answer.
  unfoldable pub dispatch_routed :
      ℕ
      → DomainDispatch S K
      → HandleRequest
      → Dispatched S K
      → Any
      → Option (Outcome CodedError HandleResponse)
  dispatch_routed fuel d req dispatched any = elim (rebuild d.rebuilder req.history) [
    | err e ↦ some (err e)
    | panicked ↦ some panicked
    | ok (state, _) ↦
        elim (decide fuel d (handler_of dispatched) any state (command_context req)
          (decision_cover req)) [ none ↦ none | some decided ↦ some (answer d dispatched decided) ]
  ]

  -- `DomainDispatch::dispatch`.
  unfoldable pub dispatch :
      ℕ → DomainDispatch S K → HandleRequest → Option (Outcome CodedError HandleResponse)
  dispatch fuel d req = elim (route d (and_then req.input (λ b. b.page)) untyped) [
    | err e ↦ some (err e)
    | panicked ↦ some panicked
    | ok (dispatched, any) ↦ dispatch_routed fuel d req dispatched any
  ]

-- The verdict of `DomainDispatch::check_step_idempotent` on the second run.
abbrev pub verdict : {K : Type 0} → Emit K → Outcome NotIdempotent (Unit {0})
verdict again = elim (is_empty again.events) [
  | false ↦ err (NotIdempotent.emitted_again again.events)
  | true ↦ elim (continues again) [
    | Continues.somewhere ↦ err NotIdempotent.continued_again
    | Continues.nowhere ↦ ok tt
  ]
]

module _ ⦃w : Wire⦄ ⦃r : Reasons⦄ {S K : Type 0} where
  -- `DomainDispatch::check_step_idempotent`.
  unfoldable pub check_step_idempotent :
      DomainDispatch S K
      → S
      → CommandContext
      → (S → CommandContext → Outcome HandlerError (Emit K))
      → Outcome NotIdempotent (Unit {0})
  check_step_idempotent d state ctx step = do
    first ← map_err NotIdempotent.failed (call_handler (step state ctx))
    let (after, folded) =
        apply_emitted d.rebuilder state first.events ctx.cover ctx.next_sequence
          (event_meta ctx d.rules_version)
    _ ← map_err NotIdempotent.failed folded
    again ← map_err NotIdempotent.failed (call_handler (step after ctx))
    verdict again
