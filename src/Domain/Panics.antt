-- ===== src/Domain/Panics.antt =====
-- crates/router/src/domain.rs: where `DomainDispatch::dispatch` may unwind.
use angzarr_router.Prelude.{
  ℕ, zero, suc, ◌+◌, ◌%◌, ◌^◌, ◌≡◌, refl, ◌≢◌, ◌⊎◌, inl, inr, Option, some, List, [], ◌++◌, length,
  Outcome, ok, err, panicked, and_then, arith, Option-cases, Outcome-cases,
}
use angzarr_router.Wire.Payload.{Any, untyped}
use angzarr_router.Wire.Messages.{Wire, CommandPage}
use angzarr_router.Wire.Requests.{HandleRequest}
use angzarr_router.Errors.Reasons.{Reasons}
use angzarr_router.Errors.Types.{CodedError}
use angzarr_router.Errors.Coded.{call_handler}
use angzarr_router.Errors.Calls.{call_handler-ne-panicked}
use angzarr_router.Context.{CommandContext, event_meta, command_context}
use angzarr_router.Rebuild.Building.{encode_state}
use angzarr_router.Rebuild.Folding.{apply_emitted}
use angzarr_router.Rebuild.Rebuilding.{rebuild}
use angzarr_router.Rebuild.Panics.{apply_emitted-ne-panicked, rebuild-eq-panicked_iff}
use angzarr_router.Domain.Emits.{Emit, Closures, run_step}
use angzarr_router.Domain.Table.{DomainDispatch, Dispatched, HandlerFn, route}
use angzarr_router.Domain.Deciding.{
  handler_of, decision_cover, answer, decide_loop, decide, dispatch_routed, dispatch,
}

module _ ⦃w : Wire⦄ ⦃r : Reasons⦄ {S K : Type 0} (d : DomainDispatch S K) where
  route-ne-panicked : (page : Option CommandPage) (any : Any) → route d page any ≢ panicked
  unfolding route
  route-ne-panicked page any h = ground arith

  answer-panicked :
      (dispatched : Dispatched S K) (s : S) (o : Outcome CodedError (List Any))
      → o ≢ panicked
      → answer d dispatched (s, o) ≡ panicked
      → encode_state d.rebuilder s ≡ panicked
  answer-panicked dispatched s (ok events) ne h =
      elim (Outcome-cases (encode_state d.rebuilder s)) [
        | inl (state, encoded) ↦ absurd (ground arith)
        | inr (inl (e, failed)) ↦ absurd e
        | inr (inr unwound) ↦ unwound
      ]
  answer-panicked dispatched s (err e) ne h = cc
  answer-panicked dispatched s panicked ne h = absurd (ne refl)

module _ ⦃w : Wire⦄ ⦃r : Reasons⦄ {S K : Type 0} (closures : Closures S K)
    (d : DomainDispatch S K) where
  decide_loop-ne-panicked :
      (fuel : ℕ) (s : S) (ctx : CommandContext) (cover : Option w.Cover) (answered : List Any)
      (emit : Emit K) (s' : S)
      → decide_loop closures fuel d s ctx cover answered emit ≢ some (s', panicked)
  unfolding decide_loop
  decide_loop-ne-panicked zero s ctx cover answered emit s' h = cc
  decide_loop-ne-panicked (suc fuel) s ctx cover answered emit s' h =
      let at = (ctx.next_sequence + length answered) % 2 ^ 64 in
      let meta = event_meta ctx d.rules_version in
      let applied = apply_emitted d.rebuilder s emit.events cover at meta in
      let caught = apply_emitted-ne-panicked d.rebuilder cover emit.events s at meta in
      elim (Option-cases emit.next) [
        | inl ended ↦ ground arith
        | inr (continuation, goes_on) ↦
            let stepped = call_handler (run_step closures continuation applied.0 ctx) in
            elim (Outcome-cases stepped) [
              | inl (emit', ran) ↦ ground (
                arith,
                decide_loop-ne-panicked fuel applied.0 ctx cover (answered ++ emit.events) emit' s',
              )
              | inr (inl (e, failed)) ↦ ground arith
              | inr (inr unwound) ↦
                  call_handler-ne-panicked (run_step closures continuation applied.0 ctx) unwound
            ]
      ]

  decide-ne-panicked :
      (fuel : ℕ) (thunk : HandlerFn S K) (any : Any) (s : S) (ctx : CommandContext)
      (cover : Option w.Cover) (s' : S)
      → decide closures fuel d thunk any s ctx cover ≢ some (s', panicked)
  unfolding decide
  decide-ne-panicked fuel thunk any s ctx cover s' h =
      elim (Outcome-cases (call_handler (thunk any s ctx))) [
        | inl (emit, returned) ↦ decide_loop-ne-panicked fuel s ctx cover [] emit s' (ground arith)
        | inr (inl (e, failed)) ↦ ground arith
        | inr (inr unwound) ↦ call_handler-ne-panicked (thunk any s ctx) unwound
      ]

  -- A dispatch unwinds only where the state factory or the codec's encoder panics: a panic of a
  -- handler, of a continuation, of an applier, of a batched fold or of the codec's decoding is
  -- answered.
  pub dispatch-eq-panicked :
      (fuel : ℕ) (req : HandleRequest)
      → dispatch closures fuel d req ≡ some panicked
      → (d.rebuilder.factory ≡ panicked) ⊎ ((s : S) × (encode_state d.rebuilder s ≡ panicked))
  unfolding dispatch dispatch_routed
  dispatch-eq-panicked fuel req h =
      elim (Outcome-cases (route d (and_then req.input (λ b. b.page)) untyped)) [
        | inl ((dispatched, any), routed) ↦ elim (Outcome-cases (rebuild d.rebuilder req.history)) [
          | inl ((start, info), rebuilt) ↦
              let ctx = command_context req in
              let cover = decision_cover req in
              elim (Option-cases
                (decide closures fuel d (handler_of dispatched) any start ctx cover)) [
                  | inl out ↦ absurd (ground arith)
                  | inr ((s, o), decided) ↦ inr (
                    s,
                    answer-panicked d dispatched s o
                        (λ e.
                          decide-ne-panicked fuel (handler_of dispatched) any start ctx cover s
                            (rw e at decided))
                        (ground arith),
                  )
                ]
          | inr (inl (e, failed)) ↦ absurd (ground arith)
          | inr (inr unwound) ↦ inl ((rebuild-eq-panicked_iff d.rebuilder req.history).0 unwound)
        ]
        | inr (inl (e, refused)) ↦ absurd (ground arith)
        | inr (inr unwound) ↦ absurd (route-ne-panicked d _ untyped unwound)
      ]
