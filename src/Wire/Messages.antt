-- ===== src/Wire/Messages.antt =====
-- Core's records and envelopes (`pb`): books, pages and the metadata of a page.
use angzarr_router.Prelude.{ℕ, String, Option, none, List, []}
use angzarr_router.Wire.Payload.{Any}

-- A delivered command's body (`pb::reaction_delivery::Body`).
pub data DeliveryBody : Type 0 where
  command : Any → DeliveryBody
  fact : Any → DeliveryBody

-- What the router only passes through, and the accessors and defaults that it uses of it.
pub record Wire : Type 1 where
  pub Uuid : Type 0
  pub Timestamp : Type 0
  pub EventRef : Type 0
  pub FactOrigin : Type 0
  pub MetaEvent : Type 0
  pub Descriptor : Type 0
  pub Cover : Type 0
  pub cover_domain : Cover → String
  pub default_cover : Cover
  pub Delivery : Type 0
  pub delivery_body : Delivery → Option DeliveryBody
  pub default_delivery : Delivery

module _ ⦃w : Wire⦄ where
  -- `pb::CommandCause`.
  pub record CommandCause : Type 0 where
    pub command_id : Option w.Uuid

  -- `pb::FactCause`.
  pub record FactCause : Type 0 where
    pub command_id : Option w.Uuid
    pub origin : Option w.FactOrigin

  -- `pb::event_meta::Causation`.
  pub data Causation : Type 0 where
    command : CommandCause → Causation
    fact : FactCause → Causation

  -- `pb::EventMeta`.
  pub record EventMeta : Type 0 where
    pub causation : Option Causation
    pub correlation_id : Option w.Uuid
    pub recorded_at : Option w.Timestamp
    pub rules_version : String

  -- `pb::event_page::Body`.
  pub data PageBody : Type 0 where
    event : Any → PageBody
    meta_event : w.MetaEvent → PageBody

  -- `pb::EventPage`.
  pub record EventPage : Type 0 where
    pub body : Option PageBody
    pub meta : Option EventMeta
    pub sequence : ℕ

  -- `pb::Snapshot`.
  pub record Snapshot : Type 0 where
    pub state : Option Any
    pub sequence : ℕ

  -- `pb::EventBook`, and its default.
  pub record EventBook : Type 0 where
    pub cover : Option w.Cover
    pub pages : List EventPage
    pub snapshot : Option Snapshot
    pub next_sequence : ℕ

  abbrev pub default_book : EventBook
  default_book = record { cover = none; pages = []; snapshot = none; next_sequence = 0 }

  -- `pb::Command` and its `pb::Handling`; `pb::Fact`.
  pub record Handling : Type 0 where
    pub expected_sequence : Option ℕ

  pub record Command : Type 0 where
    pub payload : Option Any
    pub handling : Option Handling

  pub record Fact : Type 0 where
    pub payload : Option Any
    pub origin : Option w.FactOrigin

  -- `pb::command_page::Body`.
  pub data CommandBody : Type 0 where
    command : Command → CommandBody
    fact : Fact → CommandBody

  -- `pb::CommandPage` and `pb::CommandBook`.
  pub record CommandPage : Type 0 where
    pub body : Option CommandBody
    pub command_id : Option w.Uuid
    pub correlation_id : Option w.Uuid

  pub record CommandBook : Type 0 where
    pub cover : Option w.Cover
    pub page : Option CommandPage
