-- ===== src/Wire/Requests.antt =====
-- The handler layer's requests and answers (`hpb`).
use angzarr_router.Prelude.{ℕ, String, Option, List}
use angzarr_router.Wire.Payload.{Any}
use angzarr_router.Wire.Messages.{Wire, EventBook, EventPage, CommandBook}
use angzarr_router.Errors.Types.{Refusal}

module _ ⦃w : Wire⦄ where
  -- `hpb::HandleRequest`.
  pub record HandleRequest : Type 0 where
    pub input : Option CommandBook
    pub history : Option EventBook
    pub recorded_at : Option w.Timestamp
    pub causation : Option w.EventRef

  -- `hpb::HandleResponse`.
  pub record HandleResponse : Type 0 where
    pub events : List Any
    pub state : Option Any
    pub rules_version : String

  -- `hpb::output::Body` and `hpb::Output`.
  pub data OutputBody : Type 0 where
    command : Any → OutputBody
    fact : Any → OutputBody

  pub record Output : Type 0 where
    pub root : Option w.Uuid
    pub body : Option OutputBody

  -- `hpb::ReactRequest` and `hpb::ReactResponse`.
  pub record ReactRequest : Type 0 where
    pub trigger : Option EventBook

  pub record ReactResponse : Type 0 where
    pub outputs : List Output

  -- `hpb::TranslateRequest` and `hpb::TranslateResponse`.
  pub record TranslateRequest : Type 0 where
    pub command : Option w.Delivery
    pub refusal : Option Refusal
    pub trigger : Option EventBook

  pub record TranslateResponse : Type 0 where
    pub fact : Option Any

  -- `hpb::ProjectRequest` and `hpb::ProjectResponse`.
  pub record ProjectRequest : Type 0 where
    pub events : Option EventBook

  pub record ProjectResponse : Type 0 where
    pub projection : Option Any

  -- `hpb::upcast_request::Input`; its pages are their message's `events`.
  pub data UpcastInput : Type 0 where
    lone_payload : Any → UpcastInput
    pages : List EventPage → UpcastInput

  pub record UpcastRequest : Type 0 where
    pub input : Option UpcastInput

  -- `hpb::upcasted::Key` and `hpb::Upcasted`.
  pub data UpcastKey : Type 0 where
    sequence : ℕ → UpcastKey
    no_sequence : UpcastKey

  pub record Upcasted : Type 0 where
    pub key : Option UpcastKey
    pub payload : Option Any

  pub record UpcastResponse : Type 0 where
    pub pages : List Upcasted
