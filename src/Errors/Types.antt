-- ===== src/Errors/Types.antt =====
-- crates/router/src/error.rs: the types of the error model.
use angzarr_router.Prelude.{ℕ, String, Option, Dict}
use angzarr_router.Prelude.Int.{ℤ}
use angzarr_router.Wire.Payload.{Any}
use angzarr_router.Errors.Codes.{GrpcCode}

-- `FoldAt`.
pub data FoldAt : Type 0 where
  page : ℕ → String → FoldAt
  range : ℕ → ℕ → FoldAt

-- `CodedError`.
pub record CodedError : Type 0 where
  pub code : String
  pub extras : Dict String
  pub grpc : GrpcCode
  pub refusal : Option Any

-- `HandlerError`.
pub data HandlerError : Type 0 where
  coded : CodedError → HandlerError
  other : String → HandlerError

-- What an applier or a codec fails with: a `CodedError`, or any other error, by its text
-- (`Box<dyn std::error::Error>`, and what `downcast_ref` tells of it).
pub data AnyError : Type 0 where
  coded : CodedError → AnyError
  other : String → AnyError

-- `io.angzarr.handler.v1.Refusal`.
pub record Refusal : Type 0 where
  pub status : ℤ
  pub typed : Option Any
