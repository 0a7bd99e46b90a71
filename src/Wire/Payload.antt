-- ===== src/Wire/Payload.antt =====
-- `prost_types::Any`, the opaque business payload, and `pb::Diagnostic`, a key and its args.
use angzarr_router.Prelude.{ℕ, String, List, [], Dict}

pub record Any : Type 0 where
  pub type_url : String
  pub value : List ℕ

-- `Any::default()`: prost's default message has empty fields.
abbrev pub untyped : Any
untyped = record { type_url = ""; value = [] }

pub record Diagnostic : Type 0 where
  pub code : String
  pub args : Dict String
