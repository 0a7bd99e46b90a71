-- ===== src/Errors/Codes.antt =====
-- crates/router/src/error.rs: the gRPC codes and the statuses that stand for some of them.
use angzarr_router.Prelude.{Option, none, some, Outcome, ok, err, nat_eq, if◌then◌else◌}
use angzarr_router.Prelude.Int.{ℤ, pos, negsuc}

-- `GrpcCode`.
pub data GrpcCode : Type 0 where
  unknown : GrpcCode
  invalid_argument : GrpcCode
  deadline_exceeded : GrpcCode
  not_found : GrpcCode
  already_exists : GrpcCode
  permission_denied : GrpcCode
  resource_exhausted : GrpcCode
  failed_precondition : GrpcCode
  aborted : GrpcCode
  out_of_range : GrpcCode
  unimplemented : GrpcCode
  internal : GrpcCode
  unavailable : GrpcCode
  data_loss : GrpcCode

-- The number of a code on the wire: the enum's discriminant.
unfoldable pub wire_number : GrpcCode → ℤ
wire_number GrpcCode.unknown = pos 2
wire_number GrpcCode.invalid_argument = pos 3
wire_number GrpcCode.deadline_exceeded = pos 4
wire_number GrpcCode.not_found = pos 5
wire_number GrpcCode.already_exists = pos 6
wire_number GrpcCode.permission_denied = pos 7
wire_number GrpcCode.resource_exhausted = pos 8
wire_number GrpcCode.failed_precondition = pos 9
wire_number GrpcCode.aborted = pos 10
wire_number GrpcCode.out_of_range = pos 11
wire_number GrpcCode.unimplemented = pos 12
wire_number GrpcCode.internal = pos 13
wire_number GrpcCode.unavailable = pos 14
wire_number GrpcCode.data_loss = pos 15

-- `GrpcCode::from_wire`.
unfoldable pub from_wire : ℤ → Option GrpcCode
from_wire (pos number) =
    if nat_eq number 2
    then some GrpcCode.unknown
    else if nat_eq number 3
    then some GrpcCode.invalid_argument
    else if nat_eq number 4
    then some GrpcCode.deadline_exceeded
    else if nat_eq number 5
    then some GrpcCode.not_found
    else if nat_eq number 6
    then some GrpcCode.already_exists
    else if nat_eq number 7
    then some GrpcCode.permission_denied
    else if nat_eq number 8
    then some GrpcCode.resource_exhausted
    else if nat_eq number 9
    then some GrpcCode.failed_precondition
    else if nat_eq number 10
    then some GrpcCode.aborted
    else if nat_eq number 11
    then some GrpcCode.out_of_range
    else if nat_eq number 12
    then some GrpcCode.unimplemented
    else if nat_eq number 13
    then some GrpcCode.internal
    else if nat_eq number 14
    then some GrpcCode.unavailable
    else if nat_eq number 15
    then some GrpcCode.data_loss
    else none
from_wire (negsuc number) = none

-- `angzarr_proto::ReasonSurface`: how a reason key travels.
pub data ReasonSurface : Type 0 where
  grpc_status : ℤ → ReasonSurface
  readiness : ReasonSurface

-- `GrpcCode::of_surface`.
unfoldable pub of_surface : Option ReasonSurface → Option GrpcCode
unfolding from_wire
of_surface none = none
of_surface (some (ReasonSurface.grpc_status code)) = from_wire code
of_surface (some ReasonSurface.readiness) = none

-- `RetryableStatus`.
pub data RetryableStatus : Type 0 where
  unavailable : RetryableStatus
  deadline_exceeded : RetryableStatus
  resource_exhausted : RetryableStatus

-- `From<RetryableStatus> for GrpcCode`.
unfoldable pub of_retryable : RetryableStatus → GrpcCode
of_retryable RetryableStatus.unavailable = GrpcCode.unavailable
of_retryable RetryableStatus.deadline_exceeded = GrpcCode.deadline_exceeded
of_retryable RetryableStatus.resource_exhausted = GrpcCode.resource_exhausted

-- `BusinessStatus`.
pub data BusinessStatus : Type 0 where
  failed_precondition : BusinessStatus
  invalid_argument : BusinessStatus
  not_found : BusinessStatus
  already_exists : BusinessStatus
  out_of_range : BusinessStatus
  permission_denied : BusinessStatus

-- `From<BusinessStatus> for GrpcCode`.
unfoldable pub of_business : BusinessStatus → GrpcCode
of_business BusinessStatus.failed_precondition = GrpcCode.failed_precondition
of_business BusinessStatus.invalid_argument = GrpcCode.invalid_argument
of_business BusinessStatus.not_found = GrpcCode.not_found
of_business BusinessStatus.already_exists = GrpcCode.already_exists
of_business BusinessStatus.out_of_range = GrpcCode.out_of_range
of_business BusinessStatus.permission_denied = GrpcCode.permission_denied

-- `TryFrom<GrpcCode> for BusinessStatus`: a code of another kind is refused with itself.
unfoldable pub try_business : GrpcCode → Outcome GrpcCode BusinessStatus
try_business GrpcCode.failed_precondition = ok BusinessStatus.failed_precondition
try_business GrpcCode.invalid_argument = ok BusinessStatus.invalid_argument
try_business GrpcCode.not_found = ok BusinessStatus.not_found
try_business GrpcCode.already_exists = ok BusinessStatus.already_exists
try_business GrpcCode.out_of_range = ok BusinessStatus.out_of_range
try_business GrpcCode.permission_denied = ok BusinessStatus.permission_denied
try_business other = err other

-- `angzarr_proto::v1::RefusalStatus`, by the values that the source matches.
pub data RefusalStatus : Type 0 where
  unspecified : RefusalStatus
  invalid_argument : RefusalStatus
  not_found : RefusalStatus
  already_exists : RefusalStatus
  permission_denied : RefusalStatus
  failed_precondition : RefusalStatus
  out_of_range : RefusalStatus

-- `TryFrom<RefusalStatus> for BusinessStatus`.
unfoldable pub business_of_refusal : RefusalStatus → Outcome RefusalStatus BusinessStatus
business_of_refusal RefusalStatus.invalid_argument = ok BusinessStatus.invalid_argument
business_of_refusal RefusalStatus.not_found = ok BusinessStatus.not_found
business_of_refusal RefusalStatus.already_exists = ok BusinessStatus.already_exists
business_of_refusal RefusalStatus.permission_denied = ok BusinessStatus.permission_denied
business_of_refusal RefusalStatus.failed_precondition = ok BusinessStatus.failed_precondition
business_of_refusal RefusalStatus.out_of_range = ok BusinessStatus.out_of_range
business_of_refusal RefusalStatus.unspecified = err RefusalStatus.unspecified

-- `From<BusinessStatus> for RefusalStatus`.
unfoldable pub refusal_of_business : BusinessStatus → RefusalStatus
refusal_of_business BusinessStatus.failed_precondition = RefusalStatus.failed_precondition
refusal_of_business BusinessStatus.invalid_argument = RefusalStatus.invalid_argument
refusal_of_business BusinessStatus.not_found = RefusalStatus.not_found
refusal_of_business BusinessStatus.already_exists = RefusalStatus.already_exists
refusal_of_business BusinessStatus.out_of_range = RefusalStatus.out_of_range
refusal_of_business BusinessStatus.permission_denied = RefusalStatus.permission_denied
