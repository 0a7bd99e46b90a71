-- ===== src/Domain/Idempotence.antt =====
-- crates/router/src/domain.rs: what `check_step_idempotent` says of a decision.
use angzarr_router.Prelude.{
  ℕ, ◌+◌, ◌%◌, ◌^◌, ◌<◌, ◌≡◌, refl, ap, ◌∙◌, inl, inr, Option, none, some, List, [], ◌++◌, length,
  Outcome, ok, arith, Outcome-cases, append-nil, suc,
}
use angzarr_router.Wire.Payload.{Any}
use angzarr_router.Wire.Messages.{Wire, EventMeta}
use angzarr_router.Errors.Reasons.{Reasons}
use angzarr_router.Errors.Types.{HandlerError}
use angzarr_router.Errors.Coded.{call_handler}
use angzarr_router.Errors.Calls.{call_handler-eq-ok}
use angzarr_router.Context.{CommandContext, event_meta}
use angzarr_router.Rebuild.Types.{Rebuilder}
use angzarr_router.Rebuild.Folding.{number_pages, fold_pages, apply_pages, apply_emitted}
use angzarr_router.Domain.Emits.{
  StepFn, Emit, continues, emit_of, emit_none, push, then_step, Closures, run_step,
}
use angzarr_router.Domain.Table.{DomainDispatch}
use angzarr_router.Domain.Deciding.{decide_loop, verdict, check_step_idempotent}

-- An accepted second run emits nothing and continues nowhere.
verdict-eq-ok : {K : Type 0} (again : Emit K) → verdict again ≡ ok tt → again ≡ emit_none
unfolding continues emit_none emit_of
verdict-eq-ok again h = ground arith

module _ ⦃w : Wire⦄ ⦃r : Reasons⦄ {S : Type 0} where
  -- Folding no events changes nothing.
  apply_emitted_nil :
      (rb : Rebuilder S) (s : S) (cover : Option w.Cover) (at : ℕ) (meta : EventMeta)
      → apply_emitted rb s [] cover at meta ≡ (s, ok tt)
  unfolding apply_emitted apply_pages number_pages fold_pages
  apply_emitted_nil rb s cover at meta = ground arith

module _ ⦃w : Wire⦄ ⦃r : Reasons⦄ {S K : Type 0} where
  -- The steps of an accepted check of a step.
  record Checks (d : DomainDispatch S K) (s : S) (ctx : CommandContext)
      (step : S → CommandContext → Outcome HandlerError (Emit K)) (first : Emit K) : Type 0 where
    after_state : S
    folds :
        apply_emitted d.rebuilder s first.events ctx.cover ctx.next_sequence
          (event_meta ctx d.rules_version)
        ≡ (after_state, ok tt)
    again : call_handler (step after_state ctx) ≡ ok emit_none

  check-Checks :
      (d : DomainDispatch S K) (s : S) (ctx : CommandContext)
      (step : S → CommandContext → Outcome HandlerError (Emit K)) (first : Emit K)
      → call_handler (step s ctx) ≡ ok first
      → check_step_idempotent d s ctx step ≡ ok tt
      → Checks d s ctx step first
  unfolding check_step_idempotent
  check-Checks d s ctx step first runs h =
      let folded =
        apply_emitted d.rebuilder s first.events ctx.cover ctx.next_sequence
          (event_meta ctx d.rules_version) in
      elim (Outcome-cases folded.1) [
        | inr (inl (e, fails)) ↦ absurd (ground arith)
        | inr (inr unwound) ↦ absurd (ground arith)
        | inl (done, folds) ↦ elim (Outcome-cases (call_handler (step folded.0 ctx))) [
          | inr (inl (e, fails)) ↦ absurd (ground arith)
          | inr (inr unwound) ↦ absurd (ground arith)
          | inl (again, ran) ↦
              let nothing = verdict-eq-ok again (ground arith) in
              record { after_state = folded.0; folds = ground arith; again = rw nothing at ran }
        ]
      ]

module _ ⦃w : Wire⦄ ⦃r : Reasons⦄ {S K : Type 0} (closures : Closures S K) (d : DomainDispatch S K)
    (ctx : CommandContext) (k : K) where
  -- One round of a decision that goes on, and the last.
  round_on :
      (fuel : ℕ) (s s1 : S) (answered : List Any) (emit e1 : Emit K) (f : StepFn K)
      → apply_emitted d.rebuilder s emit.events ctx.cover
          ((ctx.next_sequence + length answered) % 2 ^ 64)
          (event_meta ctx d.rules_version)
        ≡ (s1, ok tt)
      → emit.next ≡ some f
      → run_step closures f s1 ctx ≡ ok e1
      → decide_loop closures (suc fuel) d s ctx ctx.cover answered emit
        ≡ decide_loop closures fuel d s1 ctx ctx.cover (answered ++ emit.events) e1
  unfolding decide_loop call_handler
  round_on fuel s s1 answered emit e1 f folds goes_on runs = ground arith

  round_last :
      (fuel : ℕ) (s s1 : S) (answered : List Any) (emit : Emit K)
      → apply_emitted d.rebuilder s emit.events ctx.cover
          ((ctx.next_sequence + length answered) % 2 ^ 64)
          (event_meta ctx d.rules_version)
        ≡ (s1, ok tt)
      → emit.next ≡ none
      → decide_loop closures (suc fuel) d s ctx ctx.cover answered emit
        ≡ some (s1, ok (answered ++ emit.events))
  unfolding decide_loop
  round_last fuel s s1 answered emit folds ends = ground arith

  -- A step that the check accepts, and whose first run does not continue, may be run twice: the
  -- decision that runs it again answers the same events and ends in the same state as the one that
  -- runs it once. For a sequence within a u64.
  pub check_step_idempotent-decide_loop :
      (s : S) (first : Emit K)
      → ctx.next_sequence < 2 ^ 64
      → call_handler (closures k s ctx) ≡ ok first
      → first.next ≡ none
      → check_step_idempotent d s ctx (λ t c. closures k t c) ≡ ok tt
      → (s' : S) × (decide_loop closures 2 d s ctx ctx.cover [] (then_step emit_none k)
          ≡ some (s', ok first.events))
        × (decide_loop closures 3 d s ctx ctx.cover [] (then_step (then_step emit_none k) k)
            ≡ some (s', ok first.events))
  unfolding then_step push emit_none emit_of run_step
  check_step_idempotent-decide_loop s first small runs ends h =
      let c = check-Checks d s ctx (λ t c. closures k t c) first runs h in
      let s' = c.after_state in
      let rb = d.rebuilder in
      let meta = event_meta ctx d.rules_version in
      let head : (ctx.next_sequence + 0) % 2 ^ 64 ≡ ctx.next_sequence = omega arith in
      let nothing = apply_emitted_nil rb s ctx.cover ((ctx.next_sequence + 0) % 2 ^ 64) meta in
      let nothing' =
        apply_emitted_nil rb s' ctx.cover ((ctx.next_sequence + length first.events) % 2 ^ 64)
          meta in
      let once = call_handler-eq-ok (closures k s ctx) first runs in
      let again = call_handler-eq-ok (closures k s' ctx) emit_none c.again in
      let folds : apply_emitted rb s first.events ctx.cover ((ctx.next_sequence + 0) % 2 ^ 64) meta
          ≡ (s', ok tt) =
        rw head c.folds in
      let step = StepFn.step k in
      (
        s',
        round_on 1 s s [] (then_step emit_none k) first step nothing refl once
            ∙ round_last 0 s s' [] first folds ends,
        round_on 2 s s [] (then_step (then_step emit_none k) k) (push first step)
              (StepFn.composed step step) nothing refl (rw once)
            ∙ round_on 1 s s' [] (push first step) emit_none step folds (rw (ends, push)) again
            ∙ round_last 0 s' s' first.events emit_none nothing' refl
            ∙ ap (λ xs. some (s', ok xs)) (append-nil first.events),
      )
