-- ===== src/Router/Hosting.antt =====
-- crates/router/src/router.rs: the builder, the validation of its one component, and the dispatch to
-- it.
use angzarr_router.Prelude.{
  String, Option, none, some, List, [], ◌∷◌, ◌++◌, Outcome, ok, err, Fueled,
}
use angzarr_router.Wire.Messages.{Wire}
use angzarr_router.Wire.Requests.{
  HandleRequest, HandleResponse, ReactRequest, ReactResponse, TranslateRequest, TranslateResponse,
  ProjectRequest, ProjectResponse,
}
use angzarr_router.Errors.Reasons.{AngzarrReason, Reasons}
use angzarr_router.Errors.Types.{CodedError}
use angzarr_router.Errors.Coded.{keyed}
use angzarr_router.Policy.{PolicyDispatch}
use angzarr_router.Router.Handlers.{
  CommandHandler, DynCommandHandler, dyn_of_command_handler, ProjectorHandler, DynProjectorHandler,
  dyn_of_projector, policy_of_dispatch,
}

module _ ⦃w : Wire⦄ where
  -- `Component`.
  pub data Component : Type 0 where
    aggregate : DynCommandHandler → Component
    policy : PolicyDispatch → Component
    projector : DynProjectorHandler → Component

  -- `Component::name`.
  unfoldable pub component_name : Component → String
  component_name (Component.aggregate c) = c.name
  component_name (Component.policy c) = c.name
  component_name (Component.projector c) = c.name

  -- `RouterBuilder`.
  pub record RouterBuilder : Type 0 where
    pub components : List Component
    pub descriptor : Option w.Descriptor

  -- `RouterBuilder::new`.
  unfoldable pub new_builder : RouterBuilder
  new_builder = record { components = []; descriptor = none }

  -- `RouterBuilder::aggregate`.
  unfoldable pub host_aggregate : RouterBuilder → CommandHandler → RouterBuilder
  unfolding dyn_of_command_handler
  host_aggregate b c = record b {
    components = b.components ++ Component.aggregate (dyn_of_command_handler c) ∷ [];
  }

  -- `RouterBuilder::policy`.
  unfoldable pub host_policy : RouterBuilder → PolicyDispatch → RouterBuilder
  host_policy b p = record b { components = b.components ++ Component.policy p ∷ [] }

  -- `RouterBuilder::process_manager`.
  unfoldable pub host_process_manager : RouterBuilder → CommandHandler → RouterBuilder
  unfolding host_aggregate
  host_process_manager b c = host_aggregate b c

  -- `RouterBuilder::projector`.
  unfoldable pub host_projector : RouterBuilder → ProjectorHandler → RouterBuilder
  unfolding dyn_of_projector
  host_projector b p = record b {
    components = b.components ++ Component.projector (dyn_of_projector p) ∷ [];
  }

  -- `RouterBuilder::descriptor`.
  unfoldable pub with_descriptor : RouterBuilder → w.Descriptor → RouterBuilder
  with_descriptor b descriptor = record b { descriptor = some descriptor }

  -- `Router`.
  pub record Router : Type 0 where
    pub component : Component
    pub descriptor : Option w.Descriptor

  -- `Router::component_descriptor`.
  unfoldable pub component_descriptor : Router → Option w.Descriptor
  component_descriptor router = router.descriptor

  module _ ⦃r : Reasons⦄ where
    -- `Component::refuse_another`.
    unfoldable pub refuse_another : Component → String → CodedError
    unfolding keyed component_name
    refuse_another c refused =
        keyed AngzarrReason.duplicate_component
          ((r.registered_arg, component_name c) ∷ (r.refused_arg, refused) ∷ [])

    -- `RouterBuilder::build`, on the components in the order in which they were added.
    abbrev pub build_of : List Component → Option w.Descriptor → Outcome CodedError Router
    build_of [] descriptor = err (keyed AngzarrReason.no_handlers_registered [])
    build_of (component ∷ []) descriptor =
        ok (record { component = component; descriptor = descriptor })
    build_of (component ∷ second ∷ _) descriptor =
        err (refuse_another component (component_name second))

    unfoldable pub build : RouterBuilder → Outcome CodedError Router
    build b = build_of b.components b.descriptor

    -- `wrong_kind`.
    unfoldable pub wrong_kind : CodedError
    unfolding keyed
    wrong_kind = keyed AngzarrReason.no_component_of_kind []

    -- `Router::refuse_another_component`.
    unfoldable pub refuse_another_component : Router → String → CodedError
    unfolding refuse_another
    refuse_another_component router refused = refuse_another router.component refused

    abbrev handle_with : Component → HandleRequest → Fueled CodedError HandleResponse
    handle_with (Component.aggregate c) req = c.dispatch req
    handle_with (Component.policy _) req = some (err wrong_kind)
    handle_with (Component.projector _) req = some (err wrong_kind)

    abbrev react_with : Component → ReactRequest → Fueled CodedError ReactResponse
    react_with (Component.policy p) req = (policy_of_dispatch p).react req
    react_with (Component.aggregate _) req = some (err wrong_kind)
    react_with (Component.projector _) req = some (err wrong_kind)

    abbrev translate_with : Component → TranslateRequest → Fueled CodedError TranslateResponse
    translate_with (Component.policy p) req = (policy_of_dispatch p).translate req
    translate_with (Component.aggregate _) req = some (err wrong_kind)
    translate_with (Component.projector _) req = some (err wrong_kind)

    abbrev project_with : Component → ProjectRequest → Fueled CodedError ProjectResponse
    project_with (Component.projector p) req = p.dispatch req
    project_with (Component.aggregate _) req = some (err wrong_kind)
    project_with (Component.policy _) req = some (err wrong_kind)

    -- `Router::dispatch_command`.
    unfoldable pub dispatch_command : Router → HandleRequest → Fueled CodedError HandleResponse
    dispatch_command router req = handle_with router.component req

    -- `Router::dispatch_react`.
    unfoldable pub dispatch_react : Router → ReactRequest → Fueled CodedError ReactResponse
    dispatch_react router req = react_with router.component req

    -- `Router::dispatch_translate`.
    unfoldable pub dispatch_translate :
        Router → TranslateRequest → Fueled CodedError TranslateResponse
    dispatch_translate router req = translate_with router.component req

    -- `Router::dispatch_project`.
    unfoldable pub dispatch_project : Router → ProjectRequest → Fueled CodedError ProjectResponse
    dispatch_project router req = project_with router.component req
