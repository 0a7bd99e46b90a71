-- ===== src/Domain/Table.antt =====
-- crates/router/src/domain.rs: the dispatch table, and the routing of an input.
use angzarr_router.Prelude.{
  String, Option, none, some, List, [], Dict, lookup, insert, keys, Outcome, ok, err, and_then,
  unwrap_or,
}
use angzarr_router.Wire.Payload.{Any}
use angzarr_router.Wire.Messages.{Wire, CommandBody, Fact, CommandPage}
use angzarr_router.Wire.Reading.{type_name_from_url, command_payload}
use angzarr_router.Errors.Reasons.{AngzarrReason, Reasons}
use angzarr_router.Errors.Types.{CodedError, HandlerError}
use angzarr_router.Errors.Coded.{unknown_type}
use angzarr_router.Context.{CommandContext}
use angzarr_router.Rebuild.Types.{Rebuilder}
use angzarr_router.Domain.Emits.{Emit}

-- `pb::ComponentKind`, by the values that a domain has.
pub data ComponentKind : Type 0 where
  aggregate : ComponentKind
  process_manager : ComponentKind

module _ ⦃w : Wire⦄ where
  -- `HandlerFn`.
  abbrev pub HandlerFn : Type 0 → Type 0 → Type 0
  HandlerFn S K = Any → S → CommandContext → Outcome HandlerError (Emit K)

  -- `Dispatched`.
  pub data Dispatched (S K : Type 0) : Type 0 where
    command : HandlerFn S K → Dispatched S K
    fact : HandlerFn S K → Dispatched S K

  -- `DomainDispatch`.
  pub record DomainDispatch (S K : Type 0) : Type 0 where
    pub name : String
    pub domain : String
    pub kind : ComponentKind
    pub rebuilder : Rebuilder S
    pub handlers : Dict (HandlerFn S K)
    pub facts : Dict (HandlerFn S K)
    pub rules_version : String

  module _ {S K : Type 0} where
    -- `DomainDispatch::new`.
    unfoldable pub new_aggregate : String → String → Rebuilder S → DomainDispatch S K
    new_aggregate name domain rebuilder = record {
      name = name;
      domain = domain;
      kind = ComponentKind.aggregate;
      rebuilder = rebuilder;
      handlers = [];
      facts = [];
      rules_version = "";
    }

    -- `DomainDispatch::process_manager`.
    unfoldable pub new_process_manager : String → String → Rebuilder S → DomainDispatch S K
    unfolding new_aggregate
    new_process_manager name domain rebuilder = record (new_aggregate name domain rebuilder) {
      kind = ComponentKind.process_manager;
    }

    -- `DomainDispatch::with_rules_version`.
    unfoldable pub with_rules_version : DomainDispatch S K → String → DomainDispatch S K
    with_rules_version d rules_version = record d { rules_version = rules_version }

    -- `DomainDispatch::on_command`.
    unfoldable pub on_command : DomainDispatch S K → String → HandlerFn S K → DomainDispatch S K
    unfolding insert
    on_command d full_name thunk = record d { handlers = insert full_name thunk d.handlers }

    -- `DomainDispatch::on_fact`.
    unfoldable pub on_fact : DomainDispatch S K → String → HandlerFn S K → DomainDispatch S K
    unfolding insert
    on_fact d full_name thunk = record d { facts = insert full_name thunk d.facts }

    -- `DomainDispatch::command_types` and `DomainDispatch::fact_types`.
    unfoldable pub command_types : DomainDispatch S K → List String
    command_types d = keys d.handlers

    unfoldable pub fact_types : DomainDispatch S K → List String
    fact_types d = keys d.facts

  -- The fact of a page's Fact arm.
  abbrev pub fact_of : Option CommandBody → Option Fact
  fact_of (some (CommandBody.fact f)) = some f
  fact_of _ = none

  module _ ⦃r : Reasons⦄ {S K : Type 0} where
    -- The handler of a table for a payload's type, or the refusal of the type.
    abbrev pub picked :
        (HandlerFn S K → Dispatched S K)
        → AngzarrReason
        → Dict (HandlerFn S K)
        → Any
        → Outcome CodedError (Dispatched S K × Any)
    picked arm reason table any = elim (lookup (type_name_from_url any.type_url) table) [
      | some thunk ↦ ok (arm thunk, any)
      | none ↦ err (unknown_type reason any.type_url)
    ]

    -- `DomainDispatch::route`.
    unfoldable pub route :
        DomainDispatch S K → Option CommandPage → Any → Outcome CodedError (Dispatched S K × Any)
    route d page untyped = elim (fact_of (and_then page (λ p. p.body))) [
      | some f ↦
          picked Dispatched.fact AngzarrReason.no_fact_handler d.facts (unwrap_or f.payload untyped)
      | none ↦
          picked Dispatched.command AngzarrReason.unknown_command_type d.handlers
            (unwrap_or (and_then page command_payload) untyped)
    ]
