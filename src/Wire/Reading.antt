-- ===== src/Wire/Reading.antt =====
-- crates/router/src/lib.rs: type URLs, and what the router reads off a book or a page.
use Prim.Native.String.{◌++◌ as append}
use angzarr_router.Prelude.{ℕ, String, Option, none, some, Outcome, ok, err, panicked}
use angzarr_router.Prelude.Text.{after_last_slash}
use angzarr_router.Wire.Payload.{Any}
use angzarr_router.Wire.Messages.{
  Wire, EventMeta, PageBody, EventPage, EventBook, CommandBody, CommandPage,
}
use angzarr_router.Errors.Reasons.{Reasons}
use angzarr_router.Errors.Types.{CodedError}
use angzarr_router.Errors.Coded.{undecodable}

-- `TYPE_URL_PREFIX`.
abbrev pub type_url_prefix : String
type_url_prefix = "/"

-- `type_url`.
unfoldable pub type_url : String → String
type_url full_name = append type_url_prefix full_name

-- `type_name_from_url`.
unfoldable pub type_name_from_url : String → String
unfolding after_last_slash
type_name_from_url url = elim (after_last_slash url) [ some name ↦ name | none ↦ url ]

-- `decode_message`, on what prost's decoder answers for the bytes: the message, or its error's text.
unfoldable pub decode_message {ℓ} :
    {M : Type ℓ} ⦃r : Reasons⦄ → String → Outcome String M → Outcome CodedError M
unfolding undecodable
decode_message full_name (ok m) = ok m
decode_message full_name (err error) = err (undecodable full_name error)
decode_message full_name panicked = panicked

module _ ⦃w : Wire⦄ where
  -- `next_sequence`.
  unfoldable pub next_sequence : Option EventBook → ℕ
  next_sequence none = 0
  next_sequence (some book) = book.next_sequence

  abbrev body_event : Option PageBody → Option Any
  body_event (some (PageBody.event e)) = some e
  body_event _ = none

  -- `page_event`.
  unfoldable pub page_event : EventPage → Option Any
  page_event page = body_event page.body

  abbrev body_command : Option CommandBody → Option Any
  body_command (some (CommandBody.command c)) = c.payload
  body_command _ = none

  -- `command_payload`.
  unfoldable pub command_payload : CommandPage → Option Any
  command_payload page = body_command page.body

  abbrev body_fact : Option CommandBody → Option Any
  body_fact (some (CommandBody.fact f)) = f.payload
  body_fact _ = none

  -- `fact_payload`.
  unfoldable pub fact_payload : CommandPage → Option Any
  fact_payload page = body_fact page.body

  -- `PageContext`.
  pub record PageContext : Type 0 where
    pub cover : Option w.Cover
    pub sequence : ℕ
    pub meta : Option EventMeta
