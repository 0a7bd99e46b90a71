-- ===== src/Rebuild/Building.antt =====
-- crates/router/src/rebuild.rs: how a rebuilder is built.
use angzarr_router.Prelude.{ℕ, String, Option, none, some, List, [], insert, Outcome, ok, ◌>>=◌}
use angzarr_router.Wire.Payload.{Any}
use angzarr_router.Wire.Messages.{Wire}
use angzarr_router.Wire.Reading.{type_url}
use angzarr_router.Errors.Types.{AnyError}
use angzarr_router.Rebuild.Types.{
  Mutation, declared_type_url, ApplierFn, DecodeFn, EncodeFn, FoldFn, Rebuilder,
}

module _ ⦃w : Wire⦄ where
  module _ {S : Type 0} where
    -- `Rebuilder::new`.
    unfoldable pub new_rebuilder : Outcome ⊥ S → Rebuilder S
    new_rebuilder factory = record {
      factory = factory;
      codec = none;
      appliers = [];
      fold = none;
      state_type_url = "";
    }

    -- `Rebuilder::with_state_codec`.
    unfoldable pub with_state_codec : Rebuilder S → DecodeFn S → EncodeFn S → Rebuilder S
    with_state_codec rb decode encode = record rb {
      codec = some (record { decode = decode; encode = encode });
    }

    -- `Rebuilder::with_state_type`.
    unfoldable pub with_state_type : Rebuilder S → String → Rebuilder S
    unfolding declared_type_url
    with_state_type rb full_name = record rb { state_type_url = declared_type_url full_name }

    -- `Rebuilder::of_message`, over what prost gives the message `S`: its name, default, decoder
    -- and encoder.
    unfoldable pub of_message :
        String → S → (List ℕ → Outcome AnyError S) → (S → List ℕ) → Rebuilder S
    unfolding new_rebuilder with_state_codec with_state_type type_url
    of_message full_name default decode encode_to_vec =
        with_state_codec (with_state_type (new_rebuilder (ok default)) full_name)
          (λ start. decode start.value)
          (λ state. ok (record { type_url = type_url full_name; value = encode_to_vec state }))

    -- `Rebuilder::encode_state`.
    unfoldable pub encode_state : Rebuilder S → S → Outcome ⊥ (Option Any)
    encode_state rb state = elim rb.codec [
      | none ↦ ok none
      | some codec ↦ codec.encode state >>= λ a. ok (some a)
    ]

    -- `Rebuilder::apply_with_context`, and `Rebuilder::apply` over a thunk that sees no context.
    unfoldable pub apply_with_context : Rebuilder S → String → ApplierFn S → Rebuilder S
    unfolding insert
    apply_with_context rb full_name thunk = record rb {
      appliers = insert full_name thunk rb.appliers;
    }

    unfoldable pub apply :
        Rebuilder S → String → (S → Any → Mutation S AnyError (Unit {0})) → Rebuilder S
    unfolding insert
    apply rb full_name thunk = record rb {
      appliers = insert full_name (λ state any _. thunk state any) rb.appliers;
    }

    -- `Rebuilder::with_fold`.
    unfoldable pub with_fold : Rebuilder S → FoldFn S → Rebuilder S
    with_fold rb fold = record rb { fold = some fold }
