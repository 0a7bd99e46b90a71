-- ===== src/Errors/Coded.antt =====
-- crates/router/src/error.rs: the coded error, its constructors, and the handlers' calls.
use Prim.Native.String.{◌++◌ as append}
use angzarr_router.Prelude.{
  String, Bool, true, false, ◌||◌, Option, none, some, [], ◌∷◌, ◌++◌, map, Dict, collect_from,
  Outcome, ok, err, panicked, and_then, unwrap_or, is_some, if◌then◌else◌,
}
use angzarr_router.Prelude.Text.{decimal, after_last_slash}
use angzarr_router.Wire.Payload.{Any, Diagnostic}
use angzarr_router.Errors.Codes.{
  GrpcCode, RetryableStatus, BusinessStatus, of_surface, of_retryable, of_business, try_business,
  refusal_of_business,
}
use angzarr_router.Errors.Types.{FoldAt, CodedError, HandlerError, Refusal}
use angzarr_router.Errors.Reasons.{AngzarrReason, Reasons}

-- An arg of a wrapped cause: `<name>.<arg>`.
abbrev pub cause_name : String → String → String
cause_name name arg = append name (append "." arg)

-- `flatten`.
unfoldable pub flatten : String → String → Dict String → Dict String
flatten name code args = (name, code) ∷ map (λ e. (cause_name name e.0, e.1)) args

-- `CodedError::coded`.
unfoldable pub coded : String → Dict String → GrpcCode → CodedError
unfolding collect_from
coded code extras grpc = record {
  code = code;
  extras = collect_from [] extras;
  grpc = grpc;
  refusal = none;
}

-- `CodedError::status_message`.
unfoldable pub status_message : CodedError → String
status_message e = e.code

-- `CodedError::diagnostic`.
unfoldable pub diagnostic : CodedError → Diagnostic
diagnostic e = record { code = e.code; args = e.extras }

-- `CodedError::with_refusal`.
unfoldable pub with_refusal : CodedError → Any → CodedError
with_refusal e refusal = record e { refusal = some refusal }

abbrev pub is_aborted : GrpcCode → Bool
is_aborted GrpcCode.aborted = true
is_aborted _ = false

abbrev pub is_ok : {A E : Type 0} → Outcome E A → Bool
is_ok (ok _) = true
is_ok _ = false

module _ ⦃r : Reasons⦄ where
  -- `CodedError::keyed`.
  unfoldable pub keyed : AngzarrReason → Dict String → CodedError
  unfolding coded of_surface
  keyed reason extras =
      coded (r.as_str_name reason) extras
        (unwrap_or (of_surface (r.surface reason)) GrpcCode.internal)

  -- `CodedError::unknown_type`.
  unfoldable pub unknown_type : AngzarrReason → String → CodedError
  unknown_type reason type_url = keyed reason ((r.type_url_arg, type_url) ∷ [])

  -- `CodedError::undecodable`; the text is prost's own for its decode error.
  unfoldable pub undecodable : String → String → CodedError
  undecodable message_type error =
      keyed AngzarrReason.any_decode_failed
        ((r.message_type_arg, message_type) ∷ (r.ext_err_txt_arg, error) ∷ [])

  -- `CodedError::persisted_corrupt`.
  unfoldable pub persisted_corrupt : String → CodedError
  persisted_corrupt type_url =
      keyed AngzarrReason.persisted_event_corrupt ((r.type_url_arg, type_url) ∷ [])

  -- The first args of `CodedError::fold_failed`: where the fold failed.
  unfoldable pub place_args : FoldAt → Dict String
  unfolding decimal
  place_args (FoldAt.page sequence type_url) =
      (r.sequence_arg, decimal sequence) ∷ (r.type_url_arg, type_url) ∷ []
  place_args (FoldAt.range first last) =
      (r.first_sequence_arg, decimal first) ∷ (r.last_sequence_arg, decimal last) ∷ []

  abbrev pub cause_args : Option Diagnostic → Dict String
  cause_args none = []
  cause_args (some cause) = flatten r.cause_arg cause.code cause.args

  -- `CodedError::fold_failed`.
  unfoldable pub fold_failed : AngzarrReason → FoldAt → String → Option Diagnostic → CodedError
  fold_failed reason at state_type_url cause =
      keyed reason
        (place_args at ++ ((r.state_type_url_arg, state_type_url) ∷ []) ++ cause_args cause)

  -- `CodedError::unhandled`.
  unfoldable pub unhandled : CodedError
  unhandled = keyed AngzarrReason.unhandled_handler_error []

  -- `CodedError::bug`.
  unfoldable pub bug : String → Dict String → CodedError
  bug code details = keyed AngzarrReason.unhandled_handler_error (flatten r.cause_arg code details)

  -- `CodedError::panicked`.
  unfoldable pub panicked_error : CodedError
  panicked_error = bug (r.as_str_name AngzarrReason.handler_panicked) []

  -- `CodedError::retryable_bug`.
  unfoldable pub retryable_bug : RetryableStatus → String → Dict String → CodedError
  retryable_bug status code details =
      coded (r.as_str_name AngzarrReason.unhandled_handler_error) (flatten r.cause_arg code details)
        (of_retryable status)

  -- `CodedError::refused`.
  unfoldable pub refused : BusinessStatus → Any → CodedError
  refused status refusal =
      let full_name = unwrap_or (after_last_slash refusal.type_url) refusal.type_url in
      with_refusal
        (record (keyed AngzarrReason.command_refused ((r.refusal_type_arg, full_name) ∷ [])) {
          grpc = of_business status;
        })
        refusal

  -- `CodedError::as_refusal`.
  unfoldable pub as_refusal : CodedError → Option Refusal
  unfolding try_business refusal_of_business
  as_refusal e = and_then e.refusal (λ typed. elim (try_business e.grpc) [
    | ok status ↦
        some (record { status = r.refusal_number (refusal_of_business status); typed = some typed })
    | err _ ↦ none
    | panicked ↦ none
  ])

  -- `CodedError::as_fact_failure`.
  unfoldable pub as_fact_failure : CodedError → CodedError
  as_fact_failure e =
      if is_aborted e.grpc || is_ok (try_business e.grpc) || is_some e.refusal
      then bug e.code e.extras
      else e

  -- `map_handler_error`; what it logs is left out.
  unfoldable pub map_handler_error : HandlerError → CodedError
  map_handler_error (HandlerError.coded e) = e
  map_handler_error (HandlerError.other escaped) = unhandled

  -- `call_handler`, on what the handler's call came to.
  unfoldable pub call_handler {ℓ} : {A : Type ℓ} → Outcome HandlerError A → Outcome CodedError A
  call_handler (ok a) = ok a
  call_handler (err e) = err (map_handler_error e)
  call_handler panicked = err panicked_error

-- `CodedError::immediate`.
unfoldable pub immediate : String → Dict String → CodedError
unfolding coded
immediate code details = coded code details GrpcCode.aborted
