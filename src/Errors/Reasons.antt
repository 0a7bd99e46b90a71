-- ===== src/Errors/Reasons.antt =====
-- The reason keys that the router raises (`angzarr_proto::v1::AngzarrReason`), and what
-- angzarr-core's crates say of them, which this repository does not hold: an instance argument.
use angzarr_router.Prelude.{ℕ, String, Option, some, ◌≡◌}
use angzarr_router.Prelude.Int.{ℤ, pos}
use angzarr_router.Errors.Codes.{ReasonSurface, RefusalStatus}

-- The values of the enum that the router names.
pub data AngzarrReason : Type 0 where
  fold_failed : AngzarrReason
  fold_failed_emitted : AngzarrReason
  handler_panicked : AngzarrReason
  unhandled_handler_error : AngzarrReason
  command_refused : AngzarrReason
  persisted_event_corrupt : AngzarrReason
  any_decode_failed : AngzarrReason
  unknown_command_type : AngzarrReason
  no_fact_handler : AngzarrReason
  no_refusal_handler : AngzarrReason
  no_handlers_registered : AngzarrReason
  duplicate_component : AngzarrReason
  no_component_of_kind : AngzarrReason

-- `AngzarrReason::as_str_name`, `AngzarrReason::surface`, the numbers of `RefusalStatus`, and the
-- names of `reason_args`.
pub record Reasons : Type 0 where
  pub as_str_name : AngzarrReason → String
  pub surface : AngzarrReason → Option ReasonSurface
  pub refusal_number : RefusalStatus → ℤ
  pub type_url_arg : String
  pub message_type_arg : String
  pub ext_err_txt_arg : String
  pub sequence_arg : String
  pub first_sequence_arg : String
  pub last_sequence_arg : String
  pub state_type_url_arg : String
  pub cause_arg : String
  pub refusal_type_arg : String
  pub command_type_arg : String
  pub registered_arg : String
  pub refused_arg : String

-- The surface of a reason is a gRPC status of this number.
abbrev pub TravelsAs : Reasons → AngzarrReason → ℕ → Type 0
TravelsAs r reason number = r.surface reason ≡ some (ReasonSurface.grpc_status (pos number))

-- The statuses that error.rs and docs/architecture.md give for the keys that a `Handle` may answer
-- of its own: INTERNAL (13), and DATA_LOSS (15) for a starting state that does not decode.
pub record HandleReasons (r : Reasons) : Type 0 where
  pub unhandled : TravelsAs r AngzarrReason.unhandled_handler_error 13
  pub unknown_command : TravelsAs r AngzarrReason.unknown_command_type 13
  pub no_fact : TravelsAs r AngzarrReason.no_fact_handler 13
  pub fold : TravelsAs r AngzarrReason.fold_failed 13
  pub fold_emitted : TravelsAs r AngzarrReason.fold_failed_emitted 13
  pub corrupt : TravelsAs r AngzarrReason.persisted_event_corrupt 15
