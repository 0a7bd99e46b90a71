-- ===== src/Router/Handlers.antt =====
-- crates/router/src/router.rs: the kernel-facing traits, their object-safe twins, and what
-- implements them. A future is the answer that it resolves to, `none` if it never does; boxing one
-- changes nothing of it.
use angzarr_router.Prelude.{ℕ, String, some, List, Fueled}
use angzarr_router.Wire.Messages.{Wire}
use angzarr_router.Wire.Requests.{
  HandleRequest, HandleResponse, ReactRequest, ReactResponse, TranslateRequest, TranslateResponse,
  ProjectRequest, ProjectResponse,
}
use angzarr_router.Errors.Reasons.{Reasons}
use angzarr_router.Errors.Types.{CodedError}
use angzarr_router.Domain.Emits.{Closures}
use angzarr_router.Domain.Table.{ComponentKind, DomainDispatch, command_types}
use angzarr_router.Domain.Deciding
use angzarr_router.Policy
use angzarr_router.Policy.{PolicyDispatch}
use angzarr_router.Projector
use angzarr_router.Projector.{ProjectorDispatch}

module _ ⦃w : Wire⦄ where
  -- `CommandHandler` and `DynCommandHandler`.
  pub record CommandHandler : Type 0 where
    pub name : String
    pub kind : ComponentKind
    pub command_types : List String
    pub dispatch : HandleRequest → Fueled CodedError HandleResponse

  pub record DynCommandHandler : Type 0 where
    pub name : String
    pub kind : ComponentKind
    pub command_types : List String
    pub dispatch : HandleRequest → Fueled CodedError HandleResponse

  -- The `DynCommandHandler` that every `CommandHandler` is, and the way back.
  unfoldable pub dyn_of_command_handler : CommandHandler → DynCommandHandler
  dyn_of_command_handler c = record {
    name = c.name;
    kind = c.kind;
    command_types = c.command_types;
    dispatch = λ req. c.dispatch req;
  }

  unfoldable pub command_handler_of_dyn : DynCommandHandler → CommandHandler
  command_handler_of_dyn c = record {
    name = c.name;
    kind = c.kind;
    command_types = c.command_types;
    dispatch = λ req. c.dispatch req;
  }

  -- `CommandHandler for Box<T>`.
  unfoldable pub boxed_command_handler : CommandHandler → CommandHandler
  boxed_command_handler c = record {
    name = c.name;
    kind = c.kind;
    command_types = c.command_types;
    dispatch = λ req. c.dispatch req;
  }

  -- `PolicyComponent` and `DynPolicyComponent`.
  pub record PolicyComponent : Type 0 where
    pub name : String
    pub input_domain : String
    pub react : ReactRequest → Fueled CodedError ReactResponse
    pub translate : TranslateRequest → Fueled CodedError TranslateResponse

  pub record DynPolicyComponent : Type 0 where
    pub name : String
    pub input_domain : String
    pub react : ReactRequest → Fueled CodedError ReactResponse
    pub translate : TranslateRequest → Fueled CodedError TranslateResponse

  unfoldable pub dyn_of_policy : PolicyComponent → DynPolicyComponent
  dyn_of_policy p = record {
    name = p.name;
    input_domain = p.input_domain;
    react = λ req. p.react req;
    translate = λ req. p.translate req;
  }

  unfoldable pub policy_of_dyn : DynPolicyComponent → PolicyComponent
  policy_of_dyn p = record {
    name = p.name;
    input_domain = p.input_domain;
    react = λ req. p.react req;
    translate = λ req. p.translate req;
  }

  -- `PolicyComponent for Box<T>`.
  unfoldable pub boxed_policy : PolicyComponent → PolicyComponent
  boxed_policy p = record {
    name = p.name;
    input_domain = p.input_domain;
    react = λ req. p.react req;
    translate = λ req. p.translate req;
  }

  -- `ProjectorHandler` and `DynProjectorHandler`.
  pub record ProjectorHandler : Type 0 where
    pub name : String
    pub dispatch : ProjectRequest → Fueled CodedError ProjectResponse

  pub record DynProjectorHandler : Type 0 where
    pub name : String
    pub dispatch : ProjectRequest → Fueled CodedError ProjectResponse

  unfoldable pub dyn_of_projector : ProjectorHandler → DynProjectorHandler
  dyn_of_projector p = record { name = p.name; dispatch = λ req. p.dispatch req }

  unfoldable pub projector_of_dyn : DynProjectorHandler → ProjectorHandler
  projector_of_dyn p = record { name = p.name; dispatch = λ req. p.dispatch req }

  -- `ProjectorHandler for Box<T>`.
  unfoldable pub boxed_projector : ProjectorHandler → ProjectorHandler
  boxed_projector p = record { name = p.name; dispatch = λ req. p.dispatch req }

  module _ ⦃r : Reasons⦄ where
    -- `CommandHandler for DomainDispatch<S>`, whose decisions run on `fuel`.
    unfoldable pub command_handler_of_domain :
        {S K : Type 0} → Closures S K → ℕ → DomainDispatch S K → CommandHandler
    command_handler_of_domain closures fuel d = record {
      name = d.name;
      kind = d.kind;
      command_types = command_types d;
      dispatch = λ req. Deciding.dispatch closures fuel d req;
    }

    -- `PolicyComponent for PolicyDispatch`.
    unfoldable pub policy_of_dispatch : PolicyDispatch → PolicyComponent
    policy_of_dispatch p = record {
      name = p.name;
      input_domain = p.input_domain;
      react = λ req. some (Policy.react p req);
      translate = λ req. some (Policy.translate p req);
    }

    -- `ProjectorHandler for ProjectorDispatch<P>`.
    unfoldable pub projector_of_dispatch : {P : Type 0} → ProjectorDispatch P → ProjectorHandler
    projector_of_dispatch d = record {
      name = d.name;
      dispatch = λ req. some (Projector.dispatch d req);
    }
