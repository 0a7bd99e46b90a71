-- ===== src/Context.antt =====
-- crates/router/src/context.rs: what a handler is handed beside its input and the rebuilt state.
use angzarr_router.Prelude.{
  ℕ, String, Bool, not, ◌||◌, false, Option, none, some, is_empty, is_some, and_then,
}
use angzarr_router.Wire.Messages.{Wire, Causation, EventMeta, EventBook, CommandBody, CommandPage}
use angzarr_router.Wire.Requests.{HandleRequest}
use angzarr_router.Wire.Reading.{next_sequence}

module _ ⦃w : Wire⦄ where
  -- `InputArm`.
  pub data InputArm : Type 0 where
    command : Option ℕ → InputArm
    fact : Option w.FactOrigin → InputArm

  -- `InputArm::default`.
  abbrev pub default_arm : InputArm
  default_arm = InputArm.command none

  -- `CommandContext`.
  pub record CommandContext : Type 0 where
    pub next_sequence : ℕ
    pub had_prior_events : Bool
    pub cover : Option w.Cover
    pub arm : InputArm
    pub command_id : Option w.Uuid
    pub correlation_id : Option w.Uuid
    pub recorded_at : Option w.Timestamp
    pub causation : Option w.EventRef

  -- The causation that `CommandContext::event_meta` matches out of the arm.
  unfoldable pub causation_of : Option w.Uuid → InputArm → Causation
  causation_of command_id (InputArm.command _) =
      Causation.command (record { command_id = command_id })
  causation_of command_id (InputArm.fact origin) =
      Causation.fact (record { command_id = command_id; origin = origin })

  -- `CommandContext::event_meta`.
  unfoldable pub event_meta : CommandContext → String → EventMeta
  unfolding causation_of
  event_meta ctx rules_version = record {
    causation = some (causation_of ctx.command_id ctx.arm);
    correlation_id = ctx.correlation_id;
    recorded_at = ctx.recorded_at;
    rules_version = rules_version;
  }

  abbrev arm_of_body : Option CommandBody → InputArm
  arm_of_body (some (CommandBody.fact f)) = InputArm.fact f.origin
  arm_of_body (some (CommandBody.command c)) =
      InputArm.command (and_then c.handling (λ h. h.expected_sequence))
  arm_of_body none = default_arm

  -- `arm_of`.
  unfoldable pub arm_of : Option CommandPage → InputArm
  arm_of page = arm_of_body (and_then page (λ p. p.body))

  -- Whether a book carries any history, pages or a starting state (`command_context`, and
  -- `RebuildInfo::had_prior_events`).
  unfoldable pub has_history : EventBook → Bool
  has_history b = not (is_empty b.pages) || is_some b.snapshot

  abbrev pub is_some_and {ℓ} : {A : Type ℓ} → Option A → (A → Bool) → Bool
  is_some_and none p = false
  is_some_and (some a) p = p a

  -- `command_context`.
  unfoldable pub command_context : HandleRequest → CommandContext
  unfolding arm_of has_history next_sequence
  command_context req =
      let history = req.history in
      let book = req.input in
      let page = and_then book (λ b. b.page) in
      record {
        next_sequence = next_sequence history;
        had_prior_events = is_some_and history has_history;
        cover = and_then book (λ b. b.cover);
        arm = arm_of page;
        command_id = and_then page (λ p. p.command_id);
        correlation_id = and_then page (λ p. p.correlation_id);
        recorded_at = req.recorded_at;
        causation = req.causation;
      }
