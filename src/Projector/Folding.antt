-- ===== src/Projector/Folding.antt =====
-- crates/router/src/projector.rs: a projector's dispatch, batched and page by page.
use angzarr_router.Prelude.{
  ◌≡◌, ◌≢◌, refl, none, some, List, [], ◌∷◌, ◌++◌, true, false, is_empty, unwrap_or, Outcome, ok,
  err, panicked, ◌>>=◌, inl, inr, arith, Option-cases, Outcome-cases, Bool-cases,
}
use angzarr_router.Wire.Messages.{Wire, EventPage, EventBook, default_book}
use angzarr_router.Wire.Requests.{ProjectRequest}
use angzarr_router.Wire.Reading.{PageContext}
use angzarr_router.Errors.Reasons.{Reasons}
use angzarr_router.Errors.Types.{HandlerError}
use angzarr_router.Errors.Calls.{call_handler-ne-panicked}
use angzarr_router.Projector.{
  fold_handler, consumed, BatchFoldFn, ProjectorDispatch, handler_for, project_pages, project_run,
  finish_projection, dispatch,
}

module _ ⦃w : Wire⦄ where
  -- The book and the cover of a request, as a projector reads them.
  abbrev pub book_of : ProjectRequest → EventBook
  book_of req = unwrap_or req.events default_book

  abbrev pub cover_of : ProjectRequest → w.Cover
  cover_of req = unwrap_or (book_of req).cover w.default_cover

module _ ⦃r : Reasons⦄ where
  fold_handler-ne-panicked : (o : Outcome HandlerError (Unit {0})) → fold_handler o ≢ panicked
  unfolding fold_handler
  fold_handler-ne-panicked (ok done) h = cc
  fold_handler-ne-panicked (err (HandlerError.coded e)) h = cc
  fold_handler-ne-panicked (err (HandlerError.other text)) h = cc
  fold_handler-ne-panicked panicked h = cc

module _ ⦃w : Wire⦄ ⦃r : Reasons⦄ {P : Type 0} (d : ProjectorDispatch P) where
  -- The run of two runs of pages is the run of the one, then of the other.
  pub project_pages-append :
      (cover : w.Cover) (ps qs : List EventPage) (projection : P)
      → project_pages d cover (ps ++ qs) projection
        ≡ (project_pages d cover ps projection >>= λ reached. project_pages d cover qs reached)
  unfolding project_pages
  project_pages-append cover [] qs projection = refl
  project_pages-append cover (p ∷ ps) qs projection = elim (Option-cases (handler_for d p)) [
    | inl skipped ↦ ground (arith, project_pages-append cover ps qs projection)
    | inr ((event, thunk), found) ↦
        let ctx : PageContext = record {
          cover = some cover;
          sequence = p.sequence;
          meta = p.meta;
        } in
        ground (arith, project_pages-append cover ps qs (thunk projection event ctx).0)
  ]

  -- A run of a domain that the projector does not consume is answered as by a projector with no
  -- event folds and no batched fold: the fresh projection, finished.
  dispatch_elsewhere :
      (req : ProjectRequest)
      → consumed d.domains (w.cover_domain (cover_of req)) ≡ false
      → dispatch d req ≡ dispatch (record d { handlers = []; fold = none }) req
  unfolding dispatch project_run finish_projection
  dispatch_elsewhere req elsewhere = ground arith

  project_pages-ne-panicked :
      (cover : w.Cover) (ps : List EventPage) (projection : P)
      → project_pages d cover ps projection ≢ panicked
  unfolding project_pages
  project_pages-ne-panicked cover [] projection h = cc
  project_pages-ne-panicked cover (p ∷ ps) projection h = elim (Option-cases (handler_for d p)) [
    | inl skipped ↦ ground (arith, project_pages-ne-panicked cover ps projection)
    | inr ((event, thunk), found) ↦
        let ctx : PageContext = record {
          cover = some cover;
          sequence = p.sequence;
          meta = p.meta;
        } in
        let ran = thunk projection event ctx in
        ground (arith, fold_handler-ne-panicked ran.1, project_pages-ne-panicked cover ps ran.0)
  ]

  finish_projection-ne-panicked :
      (projection : P) (events : EventBook) → finish_projection d projection events ≢ panicked
  unfolding finish_projection
  finish_projection-ne-panicked projection events h = elim (Option-cases d.finish) [
    | inl unfinished ↦ ground arith
    | inr (finish, given) ↦ ground (arith, call_handler-ne-panicked (finish projection events).1)
  ]

  -- A projector without a batched fold unwinds only where its factory panics: a panic of an event's
  -- fold or of the finish is answered.
  pub dispatch_unbatched-panicked :
      (req : ProjectRequest) → d.fold ≡ none → dispatch d req ≡ panicked → d.factory ≡ panicked
  unfolding dispatch project_run
  dispatch_unbatched-panicked req unbatched h = elim (Outcome-cases d.factory) [
    | inr (inl (e, failed)) ↦ absurd e
    | inr (inr unwound) ↦ unwound
    | inl (fresh, made) ↦
        let run = project_pages d (cover_of req) (book_of req).pages fresh in
        elim (Bool-cases (consumed d.domains (w.cover_domain (cover_of req)))) [
          | inr elsewhere ↦
              absurd (finish_projection-ne-panicked fresh (book_of req) (ground arith))
          | inl here ↦ elim (Outcome-cases run) [
            | inl (projection, ran) ↦
                absurd (finish_projection-ne-panicked projection (book_of req) (ground arith))
            | inr (inl (e, fails)) ↦ absurd (ground arith)
            | inr (inr unwound) ↦
                absurd (project_pages-ne-panicked (cover_of req) (book_of req).pages fresh unwound)
          ]
        ]
  ]

  -- A run that the batched fold is given and panics on: its domain is consumed, and it has pages.
  pub record FoldUnwinds (req : ProjectRequest) : Type 0 where
    pub fold : BatchFoldFn P
    pub batched : d.fold ≡ some fold
    pub fresh : P
    pub made : d.factory ≡ ok fresh
    pub here : consumed d.domains (w.cover_domain (cover_of req)) ≡ true
    pub pages : is_empty (book_of req).pages ≡ false
    pub unwinds : (fold fresh (book_of req).pages (cover_of req)).1 ≡ panicked
