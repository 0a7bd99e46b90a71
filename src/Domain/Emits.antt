-- ===== src/Domain/Emits.antt =====
-- crates/router/src/domain.rs: `Emit` and its continuation. A continuation is a Rust closure; `K`
-- names the closures that business code makes, and `Closures` says what each answers when it is
-- run. So an emit may continue for ever, as in the source.
use angzarr_router.Prelude.{Option, none, some, List, [], Outcome, ◌>>=◌, ok}
use angzarr_router.Wire.Payload.{Any}
use angzarr_router.Wire.Messages.{Wire}
use angzarr_router.Errors.Types.{HandlerError}
use angzarr_router.Context.{CommandContext}

-- `StepFn`: a closure of business code, or the closure that `Emit::push` makes, which runs `first`
-- and puts the second after what it answers.
pub data StepFn (K : Type 0) : Type 0 where
  step : K → StepFn K
  composed : StepFn K → StepFn K → StepFn K

-- `Emit`.
pub record Emit (K : Type 0) : Type 0 where
  pub events : List Any
  pub next : Option (StepFn K)

-- `Continues`.
pub data Continues : Type 0 where
  nowhere : Continues
  somewhere : Continues

module _ {K : Type 0} where
  -- `Emit::of`.
  unfoldable pub emit_of : List Any → Emit K
  emit_of events = record { events = events; next = none }

  -- `Emit::none`.
  unfoldable pub emit_none : Emit K
  unfolding emit_of
  emit_none = emit_of []

  -- The continuation that `Emit::push` leaves.
  abbrev pub after : Option (StepFn K) → StepFn K → StepFn K
  after none second = second
  after (some first) second = StepFn.composed first second

  -- `Emit::push`.
  unfoldable pub push : Emit K → StepFn K → Emit K
  push emit second = record { events = emit.events; next = some (after emit.next second) }

  -- `Emit::then`.
  unfoldable pub then_step : Emit K → K → Emit K
  unfolding push
  then_step emit closure = push emit (StepFn.step closure)

  -- `Emit::continues`.
  unfoldable pub continues : Emit K → Continues
  continues emit = elim emit.next [ some _ ↦ Continues.somewhere | none ↦ Continues.nowhere ]

module _ ⦃w : Wire⦄ where
  -- What the closures of business code answer.
  abbrev pub Closures : Type 0 → Type 0 → Type 0
  Closures S K = K → S → CommandContext → Outcome HandlerError (Emit K)

  -- A continuation's run: that of the closure `Emit::push` makes maps `push` over its first.
  unfoldable pub run_step :
      {S K : Type 0} → Closures S K → StepFn K → S → CommandContext → Outcome HandlerError (Emit K)
  unfolding push
  run_step closures (StepFn.step closure) state ctx = closures closure state ctx
  run_step closures (StepFn.composed first second) state ctx =
      run_step closures first state ctx >>= λ emit. ok (push emit second)
