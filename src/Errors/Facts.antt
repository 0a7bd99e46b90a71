-- ===== src/Errors/Facts.antt =====
-- crates/router/src/error.rs: typed refusals, and what becomes of a failure of a fact's handling.
use angzarr_router.Prelude.{
  Dict, String, ◌≡◌, refl, ◌≢◌, none, some, arith, Bool, false, ◌||◌, Bool-cases, inl, inr, is_some,
}
use angzarr_router.Wire.Payload.{Any}
use angzarr_router.Errors.Codes.{
  GrpcCode, from_wire, of_surface, BusinessStatus, of_business, try_business, refusal_of_business,
}
use angzarr_router.Errors.Reasons.{AngzarrReason, Reasons, TravelsAs}
use angzarr_router.Errors.Types.{CodedError}
use angzarr_router.Errors.Coded.{
  is_aborted, is_ok, flatten, coded, keyed, bug, refused, with_refusal, as_refusal, as_fact_failure,
}

-- An error that a fact's handling may answer: no re-run, no business status, no refusal object.
pub record IsBug (e : CodedError) : Type 0 where
  pub no_rerun : e.grpc ≢ GrpcCode.aborted
  pub no_business : (b : BusinessStatus) → e.grpc ≢ of_business b
  pub no_object : e.refusal ≡ none

-- The test of `CodedError::as_fact_failure`.
abbrev is_refused : CodedError → Bool
is_refused e = is_aborted e.grpc || is_ok (try_business e.grpc) || is_some e.refusal

is_refused-IsBug : (e : CodedError) → is_refused e ≡ false → IsBug e
unfolding try_business of_business
is_refused-IsBug e h = record {
  no_rerun = λ p. ground arith;
  no_business = λ b p. ground arith;
  no_object = ground arith;
}

module _ ⦃r : Reasons⦄ where
  -- Any error of the router's own under INTERNAL or DATA_LOSS is a bug.
  pub keyed-IsBug_internal :
      (reason : AngzarrReason) (extras : Dict String)
      → TravelsAs r reason 13
      → IsBug (keyed reason extras)
  unfolding keyed coded of_surface from_wire of_business
  keyed-IsBug_internal reason extras h = record {
    no_rerun = λ p. ground arith;
    no_business = λ b p. ground arith;
    no_object = refl;
  }

  pub keyed-IsBug_data_loss :
      (reason : AngzarrReason) (extras : Dict String)
      → TravelsAs r reason 15
      → IsBug (keyed reason extras)
  unfolding keyed coded of_surface from_wire of_business
  keyed-IsBug_data_loss reason extras h = record {
    no_rerun = λ p. ground arith;
    no_business = λ b p. ground arith;
    no_object = refl;
  }

  -- What a fact's handling answers is a bug, whatever it failed with: never a re-run, never a
  -- business status, never a refusal object. For a catalog that declares an unhandled error INTERNAL.
  pub as_fact_failure-IsBug :
      (e : CodedError)
      → TravelsAs r AngzarrReason.unhandled_handler_error 13
      → IsBug (as_fact_failure e)
  unfolding as_fact_failure bug
  as_fact_failure-IsBug e h = elim (Bool-cases (is_refused e)) [
    | inl refused ↦ rw refused (
        keyed-IsBug_internal AngzarrReason.unhandled_handler_error
          (flatten r.cause_arg e.code e.extras) h)
    | inr passes ↦ rw passes (is_refused-IsBug e passes)
  ]

  -- A bug, retryable or not, is answered unchanged.
  as_fact_failure_of_IsBug : (e : CodedError) → IsBug e → as_fact_failure e ≡ e
  unfolding as_fact_failure try_business of_business
  as_fact_failure_of_IsBug e b = ground (
    arith,
    b.no_business BusinessStatus.failed_precondition,
    b.no_business BusinessStatus.invalid_argument,
    b.no_business BusinessStatus.not_found,
    b.no_business BusinessStatus.already_exists,
    b.no_business BusinessStatus.out_of_range,
    b.no_business BusinessStatus.permission_denied,
  )

  -- A typed refusal reaches a policy's Translate as the object that it was made of, under the
  -- status that it was refused with.
  as_refusal-refused :
      (status : BusinessStatus) (object : Any)
      → as_refusal (refused status object)
        ≡ some
            (record { status = r.refusal_number (refusal_of_business status); typed = some object })
  unfolding as_refusal refused with_refusal try_business of_business
  as_refusal-refused status object = ground arith

  -- Nothing that a fact's handling answers reaches a policy's Translate.
  as_refusal-as_fact_failure :
      (e : CodedError)
      → TravelsAs r AngzarrReason.unhandled_handler_error 13
      → as_refusal (as_fact_failure e) ≡ none
  unfolding as_refusal
  as_refusal-as_fact_failure e h = rw ((as_fact_failure-IsBug e h).no_object)
