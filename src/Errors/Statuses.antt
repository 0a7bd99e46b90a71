-- ===== src/Errors/Statuses.antt =====
-- crates/router/src/error.rs: the conversions between codes and statuses.
use angzarr_router.Prelude.{◌≡◌, ◌≢◌, ◌↔◌, some, ok, err, arith, ap, ◌∙◌}
use angzarr_router.Prelude.Int.{ℤ, pos, negsuc}
use angzarr_router.Errors.Codes.{
  GrpcCode, wire_number, from_wire, RetryableStatus, of_retryable, BusinessStatus, of_business,
  try_business, RefusalStatus, business_of_refusal, refusal_of_business,
}

wire_number-from_wire :
    (number : ℤ) (c : GrpcCode) → from_wire number ≡ some c → number ≡ wire_number c
unfolding from_wire wire_number
wire_number-from_wire (pos n) c h = ground arith
wire_number-from_wire (negsuc n) c h = cc

from_wire-wire_number : (c : GrpcCode) → from_wire (wire_number c) ≡ some c
unfolding from_wire wire_number
from_wire-wire_number c = ground arith

-- A number reads as a code exactly when it is that code's number on the wire.
from_wire_iff : (number : ℤ) (c : GrpcCode) → (from_wire number ≡ some c) ↔ (number ≡ wire_number c)
from_wire_iff number c =
    (wire_number-from_wire number c, λ e. ap from_wire e ∙ from_wire-wire_number c)

-- A code is taken as a business status exactly when that status travels as it.
pub try_business_iff :
    (c : GrpcCode) (b : BusinessStatus) → (try_business c ≡ ok b) ↔ (of_business b ≡ c)
unfolding try_business of_business
try_business_iff c b = (λ h. ground arith, λ h. ground arith)

-- A code that is no business status is refused with itself.
pub try_business-eq-err :
    (c e : GrpcCode) → try_business c ≡ err e → (e ≡ c) × ((b : BusinessStatus) → of_business b ≢ c)
unfolding try_business of_business
try_business-eq-err c e h = (ground arith, λ b. ground arith)

-- No status that a handler picks for a retryable bug is a business status.
pub of_retryable-ne-of_business :
    (s : RetryableStatus) (b : BusinessStatus) → of_retryable s ≢ of_business b
unfolding of_retryable of_business
of_retryable-ne-of_business s b = ground arith

-- A refusal message's declared status is accepted exactly when it is some business status's own, and
-- then as that one.
pub business_of_refusal_iff :
    (s : RefusalStatus) (b : BusinessStatus)
    → (business_of_refusal s ≡ ok b) ↔ (refusal_of_business b ≡ s)
unfolding business_of_refusal refusal_of_business
business_of_refusal_iff s b = (λ h. ground arith, λ h. ground arith)
