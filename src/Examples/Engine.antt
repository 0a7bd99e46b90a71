-- ===== src/Examples/Engine.antt =====
-- What a run of the router computes with.
use angzarr_router.Prelude.{lookup, insert, insert_ordered, collect_from}
use angzarr_router.Prelude.Text.{decimal, after_last_slash}
use angzarr_router.Wire.Reading.{
  type_url, type_name_from_url, next_sequence, page_event, command_payload,
}
use angzarr_router.Errors.Codes.{
  from_wire, of_surface, of_retryable, of_business, try_business, business_of_refusal,
  refusal_of_business,
}
use angzarr_router.Errors.Coded.{
  flatten, coded, diagnostic, with_refusal, keyed, unknown_type, persisted_corrupt, place_args,
  fold_failed, unhandled, bug, panicked_error, refused, as_refusal, as_fact_failure,
  map_handler_error, call_handler,
}
use angzarr_router.Context.{causation_of, event_meta, arm_of, has_history, command_context}
use angzarr_router.Rebuild.Types.{origin_reason, declared_type_url, applier_cause, panicked_cause}
use angzarr_router.Rebuild.Building.{
  new_rebuilder, with_state_codec, with_state_type, encode_state, apply_with_context,
}
use angzarr_router.Rebuild.Failures.{page_fold_error, fold_error, run_applier, run_fold}
use angzarr_router.Rebuild.Folding.{
  applier_for, fold_page, fold_pages, apply_pages, number_pages, apply_emitted,
}
use angzarr_router.Rebuild.Rebuilding.{starting_state, rebuild_loop, rebuild_pages, rebuild}
use angzarr_router.Domain.Emits.{emit_of, emit_none, push, then_step, continues, run_step}
use angzarr_router.Domain.Table.{
  new_aggregate, on_command, on_fact, with_rules_version, route, command_types,
}
use angzarr_router.Domain.Deciding.{
  decide_loop, decide, dispatch_routed, dispatch, check_step_idempotent,
}
use angzarr_router.Upcaster.{new_upcaster, rule, upcast_loop, upcast, upcast_page, upcast_pages}
use angzarr_router.Policy.{new_policy, react, translate}
use angzarr_router.Projector.{
  fold_handler, handler_for, project_pages, project_run, finish_projection,
}
use angzarr_router.Router.Hosting.{new_builder, host_aggregate, host_policy, build, component_name}
use angzarr_router.Router.Handlers.{
  dyn_of_command_handler, command_handler_of_dyn, boxed_command_handler, command_handler_of_domain,
}

unfoldable pub engine : Unit {0}
unfolding lookup insert insert_ordered collect_from decimal after_last_slash type_url
    type_name_from_url next_sequence page_event command_payload from_wire of_surface of_retryable
    of_business try_business business_of_refusal refusal_of_business flatten coded diagnostic
    with_refusal keyed unknown_type persisted_corrupt place_args fold_failed unhandled bug
    panicked_error refused as_refusal as_fact_failure map_handler_error call_handler causation_of
    event_meta arm_of has_history command_context origin_reason declared_type_url applier_cause
    panicked_cause new_rebuilder with_state_codec with_state_type encode_state apply_with_context
    page_fold_error fold_error run_applier run_fold applier_for fold_page fold_pages apply_pages
    number_pages apply_emitted starting_state rebuild_loop rebuild_pages rebuild emit_of emit_none
    push then_step continues run_step new_aggregate on_command on_fact with_rules_version route
    command_types decide_loop decide dispatch_routed dispatch check_step_idempotent new_upcaster
    rule upcast_loop upcast upcast_page upcast_pages new_policy react translate fold_handler
    handler_for project_pages project_run finish_projection new_builder host_aggregate host_policy
    build component_name dyn_of_command_handler command_handler_of_dyn boxed_command_handler
    command_handler_of_domain
engine = tt
