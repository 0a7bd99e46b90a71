-- ===== src/Domain/Fuel.antt =====
-- crates/router/src/domain.rs: how long a decision runs. The source has no step cap.
use angzarr_router.Prelude.{
  ℕ, zero, suc, ◌+◌, ◌%◌, ◌^◌, ◌≤◌, ◌<◌, ◌≡◌, refl, ap, ◌≢◌, inl, inr, Option, none, some, List,
  ◌++◌, length, ok, err, panicked, >>=-eq-ok, arith, Option-cases, Outcome-cases,
}
use angzarr_router.Wire.Payload.{Any}
use angzarr_router.Wire.Messages.{Wire}
use angzarr_router.Errors.Reasons.{Reasons}
use angzarr_router.Errors.Types.{CodedError}
use angzarr_router.Errors.Coded.{call_handler}
use angzarr_router.Errors.Calls.{call_handler-eq-ok}
use angzarr_router.Context.{CommandContext, event_meta}
use angzarr_router.Rebuild.Types.{Mutation}
use angzarr_router.Rebuild.Folding.{apply_emitted}
use angzarr_router.Domain.Emits.{StepFn, Emit, push, after, Closures, run_step}
use angzarr_router.Domain.Table.{DomainDispatch}
use angzarr_router.Domain.Deciding.{decide_loop}

-- The rank of a continuation, from a rank of each closure: one more for each closure it holds.
abbrev pub rank_of : {K : Type 0} → (K → ℕ) → StepFn K → ℕ
rank_of rank (StepFn.step closure) = suc (rank closure)
rank_of rank (StepFn.composed first second) = rank_of rank first + rank_of rank second

abbrev pub rank_next : {K : Type 0} → (K → ℕ) → Option (StepFn K) → ℕ
rank_next rank none = 0
rank_next rank (some continuation) = rank_of rank continuation

rank-after :
    {K : Type 0} (rank : K → ℕ) (o : Option (StepFn K)) (second : StepFn K)
    → rank_of rank (after o second) ≡ rank_next rank o + rank_of rank second
rank-after rank none second = omega arith
rank-after rank (some first) second = refl

module _ ⦃w : Wire⦄ ⦃r : Reasons⦄ {S K : Type 0} (closures : Closures S K) (d : DomainDispatch S K)
    (ctx : CommandContext) (cover : Option w.Cover) where
  -- More fuel changes no answer.
  pub decide_loop_more :
      (fuel k : ℕ) (s : S) (answered : List Any) (emit : Emit K)
      (out : Mutation S CodedError (List Any))
      → decide_loop closures fuel d s ctx cover answered emit ≡ some out
      → decide_loop closures (k + fuel) d s ctx cover answered emit ≡ some out
  unfolding decide_loop
  decide_loop_more zero k s answered emit out h = cc
  decide_loop_more (suc fuel) k s answered emit out h =
      let up : k + suc fuel ≡ suc (k + fuel) = omega arith in
      let at = (ctx.next_sequence + length answered) % 2 ^ 64 in
      let s1 =
        (apply_emitted d.rebuilder s emit.events cover at (event_meta ctx d.rules_version)).0 in
      rw up (elim (Option-cases emit.next) [
        | inl ended ↦ ground arith
        | inr (continuation, goes_on) ↦
            elim (Outcome-cases (call_handler (run_step closures continuation s1 ctx))) [
              | inl (emit', ran) ↦
                  ground (arith, decide_loop_more fuel k s1 (answered ++ emit.events) emit' out)
              | inr stopped ↦ ground arith
            ]
      ])

  -- Two runs of one decision that both end answer the same.
  pub decide_loop_unique :
      (fuel k : ℕ) (s : S) (answered : List Any) (emit : Emit K)
      (out out' : Mutation S CodedError (List Any))
      → decide_loop closures fuel d s ctx cover answered emit ≡ some out
      → decide_loop closures k d s ctx cover answered emit ≡ some out'
      → out ≡ out'
  decide_loop_unique fuel k s answered emit out out' h h' =
      let more = decide_loop_more fuel k s answered emit out h in
      let more' = decide_loop_more k fuel s answered emit out' h' in
      let same : k + fuel ≡ fuel + k = omega arith in let joined = rw same at more in cc

module _ ⦃w : Wire⦄ {S K : Type 0} (closures : Closures S K) (rank : K → ℕ)
    (falls : (k : K) (s : S) (c : CommandContext) (e : Emit K)
      → closures k s c ≡ ok e
      → rank_next rank e.next ≤ rank k) where
  run_step-falls :
      (f : StepFn K) (s : S) (c : CommandContext) (e : Emit K)
      → run_step closures f s c ≡ ok e
      → rank_next rank e.next < rank_of rank f
  unfolding run_step push
  run_step-falls (StepFn.step k) s c e h = omega (arith, falls k s c e h)
  run_step-falls (StepFn.composed first second) s c e h =
      let (e1, ran, pushed) = >>=-eq-ok (run_step closures first s c) _ h in
      let below = run_step-falls first s c e1 ran in
      let same : push e1 second ≡ e = cc in
      rw (← same) (omega (arith, below, rank-after rank e1.next second))

  module _ ⦃r : Reasons⦄ (d : DomainDispatch S K) (ctx : CommandContext)
      (cover : Option w.Cover) where
    -- Where every closure's emit continues only below that closure's rank, a decision ends: one more
    -- round than the rank of its continuation is enough.
    pub decide_loop_total :
        (fuel : ℕ) (s : S) (answered : List Any) (emit : Emit K)
        → rank_next rank emit.next < fuel
        → (out : Mutation S CodedError (List Any)) × (decide_loop closures fuel d s ctx cover
              answered emit
            ≡ some out)
    unfolding decide_loop
    decide_loop_total zero s answered emit h = absurd (omega arith)
    decide_loop_total (suc fuel) s answered emit h =
        let at = (ctx.next_sequence + length answered) % 2 ^ 64 in
        let ran =
          apply_emitted d.rebuilder s emit.events cover at (event_meta ctx d.rules_version) in
        elim (Outcome-cases ran.1) [
          | inr (inl (e, fails)) ↦ ((ran.0, err e), ground arith)
          | inr (inr unwound) ↦ ((ran.0, panicked), ground arith)
          | inl (done, folds) ↦ elim (Option-cases emit.next) [
            | inl ended ↦ ((ran.0, ok (answered ++ emit.events)), ground arith)
            | inr (f, goes_on) ↦
                elim (Outcome-cases (call_handler (run_step closures f ran.0 ctx))) [
                  | inr (inl (e, fails)) ↦ ((ran.0, err e), ground arith)
                  | inr (inr unwound) ↦ ((ran.0, panicked), ground arith)
                  | inl (emit', stepped) ↦
                      let below =
                        run_step-falls f ran.0 ctx emit' (call_handler-eq-ok _ emit' stepped) in
                      let (out, ends) =
                        decide_loop_total fuel ran.0 (answered ++ emit.events) emit'
                          (omega (arith, below, ap (rank_next rank) goes_on)) in
                      (out, ground arith)
                ]
          ]
        ]

module _ ⦃w : Wire⦄ ⦃r : Reasons⦄ {S K : Type 0} (closures : Closures S K) (k : K)
    (always : (s : S) (c : CommandContext) (e : Emit K)
      → closures k s c ≡ ok e
      → e.next ≡ some (StepFn.step k)) where
  -- A step that always continues with itself never ends in success, on any fuel.
  pub decide_loop_endless :
      (d : DomainDispatch S K) (ctx : CommandContext) (cover : Option w.Cover) (fuel : ℕ) (s s' : S)
      (answered all : List Any) (emit : Emit K)
      → emit.next ≡ some (StepFn.step k)
      → decide_loop closures fuel d s ctx cover answered emit ≢ some (s', ok all)
  unfolding decide_loop run_step
  decide_loop_endless d ctx cover zero s s' answered all emit goes_on h = cc
  decide_loop_endless d ctx cover (suc fuel) s s' answered all emit goes_on h =
      let at = (ctx.next_sequence + length answered) % 2 ^ 64 in
      let s1 =
        (apply_emitted d.rebuilder s emit.events cover at (event_meta ctx d.rules_version)).0 in
      elim (Outcome-cases (call_handler (closures k s1 ctx))) [
        | inl (emit', stepped) ↦
            decide_loop_endless d ctx cover fuel s1 s' (answered ++ emit.events) all emit'
              (always s1 ctx emit' (call_handler-eq-ok _ emit' stepped)) (ground arith)
        | inr stopped ↦ ground arith
      ]
