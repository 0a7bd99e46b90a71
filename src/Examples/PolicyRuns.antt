-- ===== src/Examples/PolicyRuns.antt =====
-- A policy that answers a deposit with a settlement.
use angzarr_router.Prelude.{◌≡◌, some, [], ◌∷◌, ok, panicked}
use angzarr_router.Policy.{EventFn, PolicyDispatch, new_policy, on_event, command, react}
use angzarr_router.Policy.Reacting.{react-on_event}
use angzarr_router.Examples.World.{wire, reasons, settled, history}
use angzarr_router.Examples.Engine.{engine}

abbrev settle : EventFn
unfolding command
settle any ctx = ok (command (some 1) (settled 1) ∷ [])

abbrev unwinding : EventFn
unwinding any ctx = panicked

abbrev settling : PolicyDispatch
unfolding engine on_event command
settling = on_event (new_policy "settling" "acct" "acct") "acct.Settled" settle

react-on_event_example :
    react (on_event settling "acct.Deposited" settle) (record { trigger = some history })
    ≡ ok (record { outputs = command (some 1) (settled 1) ∷ [] })
unfolding engine on_event command
react-on_event_example = react-on_event settling "acct.Deposited" settle history
