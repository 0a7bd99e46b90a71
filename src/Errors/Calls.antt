-- ===== src/Errors/Calls.antt =====
-- crates/router/src/error.rs: what `call_handler` answers.
use angzarr_router.Prelude.{◌≡◌, ◌≢◌, Outcome, ok, err, panicked}
use angzarr_router.Errors.Reasons.{Reasons}
use angzarr_router.Errors.Types.{HandlerError}
use angzarr_router.Errors.Coded.{call_handler}

pub call_handler-ne-panicked {ℓ} :
    {A : Type ℓ} ⦃r : Reasons⦄ (o : Outcome HandlerError A) → call_handler o ≢ panicked
unfolding call_handler
call_handler-ne-panicked (ok a) = λ h. cc
call_handler-ne-panicked (err e) = λ h. cc
call_handler-ne-panicked panicked = λ h. cc

pub call_handler-eq-ok {ℓ} :
    {A : Type ℓ} ⦃r : Reasons⦄ (o : Outcome HandlerError A) (a : A)
    → call_handler o ≡ ok a
    → o ≡ ok a
unfolding call_handler
call_handler-eq-ok (ok b) a h = cc
call_handler-eq-ok (err e) a h = cc
call_handler-eq-ok panicked a h = cc
