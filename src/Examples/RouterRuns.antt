-- ===== src/Examples/RouterRuns.antt =====
-- Routers of the account.
use angzarr_router.Prelude.{◌≡◌, ◌↔◌, none, some, [], ◌∷◌, ok}
use angzarr_router.Wire.Requests.{ReactRequest, TranslateRequest, ProjectRequest}
use angzarr_router.Policy.{PolicyDispatch, new_policy}
use angzarr_router.Router.Handlers.{command_handler_of_domain, dyn_of_command_handler}
use angzarr_router.Router.Hosting.{Component, Router, build}
use angzarr_router.Router.Building.{build_iff}
use angzarr_router.Examples.World.{wire, reasons, account, counting, history}
use angzarr_router.Examples.Engine.{engine}

abbrev hosted : Component
unfolding dyn_of_command_handler command_handler_of_domain engine
hosted = Component.aggregate (dyn_of_command_handler (command_handler_of_domain counting 4 account))

abbrev serving : Router
unfolding engine
serving = record { component = hosted; descriptor = none }

build_iff_example :
    (build (record { components = hosted ∷ []; descriptor = none }) ≡ ok serving)
    ↔ ((hosted ∷ [] ≡ serving.component ∷ []) × (none ≡ serving.descriptor))
unfolding engine
build_iff_example = build_iff (record { components = hosted ∷ []; descriptor = none }) serving

abbrev policy : PolicyDispatch
unfolding engine
policy = new_policy "settling" "acct" "acct"

abbrev reaction : ReactRequest
reaction = record { trigger = some history }

abbrev translation : TranslateRequest
translation = record { command = none; refusal = none; trigger = none }

abbrev projection : ProjectRequest
projection = record { events = some history }
