-- ===== src/Projector.antt =====
-- crates/router/src/projector.rs: a projector's fold of one stream's run into a projection.
pub mod Folding
use angzarr_router.Prelude.{
  ℕ, String, Bool, true, false, Option, none, some, List, [], ◌∷◌, Dict, lookup, insert, keys,
  contains, is_empty, Outcome, ok, err, panicked, ◌>>=◌, map_err, and_then, map_option, unwrap_or,
  if◌then◌else◌, infallible,
}
use angzarr_router.Wire.Payload.{Any, Diagnostic}
use angzarr_router.Wire.Messages.{Wire, EventPage, EventBook, default_book}
use angzarr_router.Wire.Requests.{ProjectRequest, ProjectResponse}
use angzarr_router.Wire.Reading.{type_name_from_url, page_event, PageContext}
use angzarr_router.Errors.Reasons.{Reasons}
use angzarr_router.Errors.Types.{CodedError, HandlerError}
use angzarr_router.Errors.Coded.{diagnostic, call_handler}
use angzarr_router.Rebuild.Types.{
  Mutation, FoldFailure, PageOrigin, declared_type_url, panicked_cause,
}
use angzarr_router.Rebuild.Failures.{page_fold_error, fold_error}

-- `fold_handler`, on what the fold handler's call came to.
unfoldable pub fold_handler :
    ⦃r : Reasons⦄ → Outcome HandlerError (Unit {0}) → Outcome (Option Diagnostic) (Unit {0})
unfolding diagnostic
fold_handler (ok done) = ok done
fold_handler (err (HandlerError.coded e)) = err (some (diagnostic e))
fold_handler (err (HandlerError.other text)) = err none
fold_handler panicked = err (some panicked_cause)

-- Whether a run of a domain is folded.
abbrev pub consumed : Option (List String) → String → Bool
consumed none domain = true
consumed (some set) domain = contains domain set

module _ ⦃w : Wire⦄ where
  -- `EventFn`, `FinishFn` and `BatchFoldFn`.
  abbrev pub EventFn : Type 0 → Type 0
  EventFn P = P → Any → PageContext → Mutation P HandlerError (Unit {0})

  abbrev pub FinishFn : Type 0 → Type 0
  FinishFn P = P → EventBook → Mutation P HandlerError Any

  abbrev pub BatchFoldFn : Type 0 → Type 0
  BatchFoldFn P = P → List EventPage → w.Cover → Mutation P FoldFailure (Unit {0})

  -- `ProjectorDispatch`.
  pub record ProjectorDispatch (P : Type 0) : Type 0 where
    pub name : String
    pub factory : Outcome ⊥ P
    pub domains : Option (List String)
    pub handlers : Dict (EventFn P)
    pub fold : Option (BatchFoldFn P)
    pub finish : Option (FinishFn P)
    pub projection_type_url : String

  module _ {P : Type 0} where
    -- `ProjectorDispatch::new`.
    unfoldable pub new_projector : String → Outcome ⊥ P → ProjectorDispatch P
    new_projector name factory = record {
      name = name;
      factory = factory;
      domains = none;
      handlers = [];
      fold = none;
      finish = none;
      projection_type_url = "";
    }

    -- `ProjectorDispatch::with_fold`.
    unfoldable pub with_fold : ProjectorDispatch P → BatchFoldFn P → ProjectorDispatch P
    with_fold d fold = record d { fold = some fold }

    -- `ProjectorDispatch::with_projection_type`.
    unfoldable pub with_projection_type : ProjectorDispatch P → String → ProjectorDispatch P
    unfolding declared_type_url
    with_projection_type d full_name = record d {
      projection_type_url = declared_type_url full_name;
    }

    -- `ProjectorDispatch::for_domains`.
    unfoldable pub for_domains : ProjectorDispatch P → List String → ProjectorDispatch P
    for_domains d domains = record d { domains = some domains }

    -- `ProjectorDispatch::on_event`.
    unfoldable pub on_event : ProjectorDispatch P → String → EventFn P → ProjectorDispatch P
    unfolding insert
    on_event d full_name thunk = record d { handlers = insert full_name thunk d.handlers }

    -- `ProjectorDispatch::finish`.
    unfoldable pub with_finish : ProjectorDispatch P → FinishFn P → ProjectorDispatch P
    with_finish d thunk = record d { finish = some thunk }

    -- `ProjectorDispatch::event_types`.
    unfoldable pub event_types : ProjectorDispatch P → List String
    event_types d = keys d.handlers

    -- The event of a page and the fold registered for its type.
    unfoldable pub handler_for : ProjectorDispatch P → EventPage → Option (Any × EventFn P)
    unfolding page_event type_name_from_url lookup
    handler_for d page = and_then (page_event page) (λ event.
        map_option (λ thunk. (event, thunk))
          (lookup (type_name_from_url event.type_url) d.handlers))

  module _ ⦃r : Reasons⦄ {P : Type 0} where
    -- The loop of `ProjectorDispatch::dispatch` over the pages.
    unfoldable pub project_pages :
        ProjectorDispatch P → w.Cover → List EventPage → P → Outcome CodedError P
    project_pages d cover [] projection = ok projection
    project_pages d cover (page ∷ pages) projection = elim (handler_for d page) [
      | none ↦ project_pages d cover pages projection
      | some (event, thunk) ↦
          let (projection', outcome) =
            thunk projection event
              (record { cover = some cover; sequence = page.sequence; meta = page.meta }) in
          elim (fold_handler outcome) [
            | ok _ ↦ project_pages d cover pages projection'
            | err cause ↦
                err (page_fold_error PageOrigin.persisted page d.projection_type_url cause)
            | panicked ↦ panicked
          ]
    ]

    -- The folding part of `ProjectorDispatch::dispatch`. The batched fold's panic is not caught.
    unfoldable pub project_run :
        ProjectorDispatch P → w.Cover → List EventPage → P → Outcome CodedError P
    project_run d cover pages projection = elim (consumed d.domains (w.cover_domain cover)) [
      | false ↦ ok projection
      | true ↦ elim d.fold [
        | none ↦ project_pages d cover pages projection
        | some fold ↦
            if is_empty pages
            then ok projection
            else (let (projection', outcome) = fold projection pages cover in
                map_err
                  (λ failure. fold_error PageOrigin.persisted pages failure d.projection_type_url)
                  outcome
                >>= λ _. ok projection')
      ]
    ]

    -- The last part of `ProjectorDispatch::dispatch`.
    unfoldable pub finish_projection :
        ProjectorDispatch P → P → EventBook → Outcome CodedError ProjectResponse
    finish_projection d projection events = elim d.finish [
      | none ↦ ok (record { projection = none })
      | some finish ↦ call_handler (finish projection events).1 >>= λ packed.
          ok (record { projection = some packed })
    ]

    -- `ProjectorDispatch::dispatch`.
    unfoldable pub dispatch :
        ProjectorDispatch P → ProjectRequest → Outcome CodedError ProjectResponse
    dispatch d req =
        let events = unwrap_or req.events default_book in
        let cover = unwrap_or events.cover w.default_cover in
        do
          fresh ← infallible d.factory
          projection ← project_run d cover events.pages fresh
          finish_projection d projection events
