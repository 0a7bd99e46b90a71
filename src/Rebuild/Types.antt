-- ===== src/Rebuild/Types.antt =====
-- crates/router/src/rebuild.rs: the rebuilder, and how a fold fails.
use angzarr_router.Prelude.{
  ℕ, String, Bool, ◌==◌, Option, none, some, List, [], Dict, Outcome, if◌then◌else◌,
}
use angzarr_router.Wire.Payload.{Any, Diagnostic}
use angzarr_router.Wire.Messages.{Wire, EventPage}
use angzarr_router.Wire.Reading.{type_url, PageContext}
use angzarr_router.Errors.Reasons.{AngzarrReason, Reasons}
use angzarr_router.Errors.Types.{AnyError}
use angzarr_router.Errors.Coded.{diagnostic}

-- What a call that is handed `&mut S` comes to: the state that it leaves, and its outcome.
abbrev pub Mutation : Type 0 → Type 0 → Type 0 → Type 0
Mutation S E A = S × Outcome E A

-- `RebuildInfo`.
pub record RebuildInfo : Type 0 where
  pub had_prior_events : Bool
  pub applied_count : ℕ

-- `FoldFailure`.
pub record FoldFailure : Type 0 where
  pub page_index : Option ℕ
  pub cause : Option Diagnostic

-- `PageOrigin`.
pub data PageOrigin : Type 0 where
  persisted : PageOrigin
  emitted : PageOrigin

-- `PageOrigin::reason`.
unfoldable pub origin_reason : PageOrigin → AngzarrReason
origin_reason PageOrigin.persisted = AngzarrReason.fold_failed
origin_reason PageOrigin.emitted = AngzarrReason.fold_failed_emitted

-- `declared_type_url`.
unfoldable pub declared_type_url : String → String
unfolding type_url
declared_type_url full_name = if full_name == "" then "" else type_url full_name

-- `applier_cause`; what it logs is left out.
unfoldable pub applier_cause : AnyError → Option Diagnostic
unfolding diagnostic
applier_cause (AnyError.coded e) = some (diagnostic e)
applier_cause (AnyError.other text) = none

-- `panicked_cause`.
unfoldable pub panicked_cause : ⦃r : Reasons⦄ → Diagnostic
panicked_cause ⦃r⦄ = record { code = r.as_str_name AngzarrReason.handler_panicked; args = [] }

module _ ⦃w : Wire⦄ where
  -- `ApplierFn`, `DecodeFn`, `EncodeFn` and `FoldFn`.
  abbrev pub ApplierFn : Type 0 → Type 0
  ApplierFn S = S → Any → PageContext → Mutation S AnyError (Unit {0})

  abbrev pub DecodeFn : Type 0 → Type 0
  DecodeFn S = Any → Outcome AnyError S

  -- An encoder answers no error of its own.
  abbrev pub EncodeFn : Type 0 → Type 0
  EncodeFn S = S → Outcome ⊥ Any

  abbrev pub FoldFn : Type 0 → Type 0
  FoldFn S = S → List EventPage → Option w.Cover → Mutation S FoldFailure (Unit {0})

  -- `StateCodec`.
  pub record StateCodec (S : Type 0) : Type 0 where
    pub decode : DecodeFn S
    pub encode : EncodeFn S

  -- `Rebuilder`.
  pub record Rebuilder (S : Type 0) : Type 0 where
    pub factory : Outcome ⊥ S
    pub codec : Option (StateCodec S)
    pub appliers : Dict (ApplierFn S)
    pub fold : Option (FoldFn S)
    pub state_type_url : String
