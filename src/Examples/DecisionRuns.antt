-- ===== src/Examples/DecisionRuns.antt =====
-- The account's decisions.
use angzarr_router.Prelude.{
  ℕ, zero, suc, ◌≤◌, ltb, ◌-◌, ◌≡◌, ◌≢◌, refl, none, some, List, [], ◌∷◌, ok, arith, if◌then◌else◌,
}
use angzarr_router.Wire.Payload.{Any}
use angzarr_router.Errors.Types.{CodedError}
use angzarr_router.Context.{CommandContext, command_context}
use angzarr_router.Rebuild.Types.{Mutation}
use angzarr_router.Domain.Emits.{StepFn, Emit, Closures, push, then_step, emit_none}
use angzarr_router.Domain.Deciding.{decide_loop}
use angzarr_router.Domain.Fuel.{rank_next, decide_loop_total, decide_loop_endless}
use angzarr_router.Domain.Stepping.{decide_loop-push}
use angzarr_router.Domain.Idempotence.{check_step_idempotent-decide_loop}
use angzarr_router.Examples.World.{
  wire, reasons, deposit, deposited, account, counting, command_request,
}
use angzarr_router.Examples.Engine.{engine}

abbrev ctx : CommandContext
ctx = command_context (command_request (deposit 5))

-- An emit of one deposit that goes on with a countdown from one.
abbrev starting : Emit ℕ
starting = record { events = deposited 5 ∷ []; next = some (StepFn.step 1) }

abbrev ended : Mutation ℕ CodedError (List Any)
ended = (13, ok (deposited 5 ∷ deposited 1 ∷ []))

ends : decide_loop counting 3 account 7 ctx (some "acct") [] starting ≡ some ended
unfolding engine
ends = refl

abbrev ended_pushed : Mutation ℕ CodedError (List Any)
ended_pushed = (16, ok (deposited 5 ∷ deposited 1 ∷ deposited 2 ∷ deposited 1 ∷ []))

decide_loop-push_example :
    decide_loop counting 6 account 7 ctx (some "acct") [] (push starting (StepFn.step 2))
    ≡ some ended_pushed
unfolding engine
decide_loop-push_example =
    decide_loop-push counting account ctx (some "acct") (StepFn.step 2) 3 3 7 [] starting ended
      ended_pushed ends refl

counting-falls :
    (k : ℕ) (s : ℕ) (c : CommandContext) (e : Emit ℕ)
    → counting k s c ≡ ok e
    → rank_next (λ n. n) e.next ≤ k
counting-falls zero s c e h = ground arith
counting-falls (suc k) s c e h = ground arith

decide_loop_total_example :
    (out : Mutation ℕ CodedError (List Any)) × (decide_loop counting 3 account 7 ctx
        (some "acct")
        []
        starting
      ≡ some out)
decide_loop_total_example =
    decide_loop_total counting (λ n. n) counting-falls account ctx (some "acct") 3 7 [] starting
      (omega arith)

-- A closure that goes on with itself.
abbrev forever : Closures ℕ ℕ
forever k s c = ok (record { events = []; next = some (StepFn.step k) })

forever-always :
    (s : ℕ) (c : CommandContext) (e : Emit ℕ) → forever 0 s c ≡ ok e → e.next ≡ some (StepFn.step 0)
forever-always s c e h = ground arith

decide_loop_endless_example :
    decide_loop forever 50 account 7 ctx
      (some "acct")
      []
      (record { events = []; next = some (StepFn.step 0) })
    ≢ some (7, ok [])
decide_loop_endless_example =
    decide_loop_endless forever 0 forever-always account ctx (some "acct") 50 7 7 [] []
      (record { events = []; next = some (StepFn.step 0) }) refl

-- A closure that tops the balance up to ten.
abbrev topping : Closures ℕ ℕ
topping k s c =
    if ltb s 10
    then ok (record { events = deposited (10 - s) ∷ []; next = none })
    else ok (record { events = []; next = none })

check_step_idempotent-decide_loop_example :
    (s' : ℕ) × (decide_loop topping 2 account 7 ctx ctx.cover [] (then_step emit_none 0)
      ≡ some (s', ok (deposited 3 ∷ [])))
    × (decide_loop topping 3 account 7 ctx ctx.cover [] (then_step (then_step emit_none 0) 0)
        ≡ some (s', ok (deposited 3 ∷ [])))
unfolding engine
check_step_idempotent-decide_loop_example =
    check_step_idempotent-decide_loop topping account ctx 0 7
      (record { events = deposited 3 ∷ []; next = none }) (omega arith) refl refl refl
