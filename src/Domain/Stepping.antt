-- ===== src/Domain/Stepping.antt =====
-- crates/router/src/domain.rs: `Emit::push` in a decision.
use angzarr_router.Prelude.{
  ℕ, zero, suc, ◌+◌, ◌%◌, ◌^◌, ◌≡◌, inl, inr, Option, some, List, ◌++◌, length, ok, err, panicked,
  ◌>>=◌, arith, Option-cases, Outcome-cases,
}
use angzarr_router.Wire.Payload.{Any}
use angzarr_router.Wire.Messages.{Wire}
use angzarr_router.Errors.Reasons.{Reasons}
use angzarr_router.Errors.Types.{CodedError}
use angzarr_router.Errors.Coded.{call_handler}
use angzarr_router.Context.{CommandContext, event_meta}
use angzarr_router.Rebuild.Types.{Mutation}
use angzarr_router.Rebuild.Folding.{apply_emitted}
use angzarr_router.Domain.Emits.{StepFn, Emit, push, Closures, run_step}
use angzarr_router.Domain.Table.{DomainDispatch}
use angzarr_router.Domain.Deciding.{decide_loop}
use angzarr_router.Domain.Fuel.{decide_loop_more}

module _ ⦃w : Wire⦄ ⦃r : Reasons⦄ {S K : Type 0} (closures : Closures S K) (d : DomainDispatch S K)
    (ctx : CommandContext) (cover : Option w.Cover) (second : StepFn K) where
  -- What a decision goes on with once the emit without the pushed step has ended.
  abbrev continued :
      ℕ → Mutation S CodedError (List Any) → Option (Mutation S CodedError (List Any))
  continued fuel (s, ok answered) = elim (call_handler (run_step closures second s ctx)) [
    | ok emit ↦ decide_loop closures fuel d s ctx cover answered emit
    | err e ↦ some (s, err e)
    | panicked ↦ some (s, panicked)
  ]
  continued fuel (s, err e) = some (s, err e)
  continued fuel (s, panicked) = some (s, panicked)

  call_handler-composed :
      (first : StepFn K) (s : S)
      → call_handler (run_step closures (StepFn.composed first second) s ctx)
        ≡ (call_handler (run_step closures first s ctx) >>= λ emit. ok (push emit second))
  unfolding run_step call_handler
  call_handler-composed first s = ground arith

  -- A decision of an emit with a step pushed onto it is the decision of the emit and then, on the
  -- state and behind the events that it left, the decision of the step; where the emit's own
  -- decision fails, the step is never run and the failure is the answer.
  pub decide_loop-push :
      (n g : ℕ) (s : S) (answered : List Any) (emit : Emit K)
      (out out' : Mutation S CodedError (List Any))
      → decide_loop closures n d s ctx cover answered emit ≡ some out
      → continued g out ≡ some out'
      → decide_loop closures (g + n) d s ctx cover answered (push emit second) ≡ some out'
  unfolding decide_loop push
  decide_loop-push zero g s answered emit out out' h h' = absurd (ground arith)
  decide_loop-push (suc n) g s answered emit out out' h h' =
      let up : g + suc n ≡ suc (g + n) = omega arith in
      let at = (ctx.next_sequence + length answered) % 2 ^ 64 in
      let ran = apply_emitted d.rebuilder s emit.events cover at (event_meta ctx d.rules_version) in
      rw up (elim (Outcome-cases ran.1) [
        | inr (inl (e, fails)) ↦ ground arith
        | inr (inr unwound) ↦ ground arith
        | inl (done, folds) ↦ elim (Option-cases emit.next) [
          | inl ended ↦ elim (Outcome-cases (call_handler (run_step closures second ran.0 ctx))) [
            | inl (emit', stepped) ↦ ground (
              arith,
              decide_loop_more closures d ctx cover g n ran.0 (answered ++ emit.events) emit' out',
            )
            | inr (inl (e, fails)) ↦ ground arith
            | inr (inr unwound) ↦ ground arith
          ]
          | inr (first, goes_on) ↦
              elim (Outcome-cases (call_handler (run_step closures first ran.0 ctx))) [
                | inl (emit', stepped) ↦ ground (
                  arith,
                  call_handler-composed first ran.0,
                  decide_loop-push n g ran.0 (answered ++ emit.events) emit' out out',
                )
                | inr (inl (e, fails)) ↦ ground (arith, call_handler-composed first ran.0)
                | inr (inr unwound) ↦ ground (arith, call_handler-composed first ran.0)
              ]
        ]
      ])
