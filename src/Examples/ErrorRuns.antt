-- ===== src/Examples/ErrorRuns.antt =====
-- Errors, and the names of types.
use angzarr_router.Prelude.{refl, [], arith}
use angzarr_router.Errors.Codes.{RetryableStatus}
use angzarr_router.Errors.Types.{CodedError}
use angzarr_router.Errors.Coded.{as_fact_failure, retryable_bug, immediate}
use angzarr_router.Errors.Facts.{IsBug, as_fact_failure-IsBug}
use angzarr_router.Examples.World.{wire, reasons, declared}
use angzarr_router.Examples.Engine.{engine}

as_fact_failure-IsBug_example : IsBug (as_fact_failure (immediate "acct.moved" []))
as_fact_failure-IsBug_example = as_fact_failure-IsBug (immediate "acct.moved" []) declared.unhandled

abbrev busy : CodedError
busy = retryable_bug RetryableStatus.unavailable "acct.busy" []

busy-IsBug : IsBug busy
unfolding engine retryable_bug
busy-IsBug = record {
  no_rerun = λ h. ground arith;
  no_business = λ b h. ground arith;
  no_object = refl;
}
