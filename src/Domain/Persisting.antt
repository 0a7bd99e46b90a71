-- ===== src/Domain/Persisting.antt =====
-- crates/router/src/domain.rs: an answer of `DomainDispatch::dispatch`, and a rebuild after its events
-- are persisted.
use angzarr_router.Prelude.{
  ℕ, ◌+◌, ◌%◌, ◌^◌, ◌≡◌, Option, none, some, List, [], ok, arith, inl, inr, Outcome-cases,
}
use angzarr_router.Wire.Payload.{Any}
use angzarr_router.Wire.Messages.{Wire, EventPage, EventBook}
use angzarr_router.Wire.Reading.{next_sequence}
use angzarr_router.Wire.Requests.{HandleRequest, HandleResponse}
use angzarr_router.Errors.Reasons.{Reasons}
use angzarr_router.Errors.Coded.{call_handler}
use angzarr_router.Context.{CommandContext, event_meta, command_context}
use angzarr_router.Rebuild.Types.{RebuildInfo, PageOrigin}
use angzarr_router.Rebuild.Building.{encode_state}
use angzarr_router.Rebuild.Folding.{fold_pages, number_pages}
use angzarr_router.Rebuild.Rebuilding.{rebuild}
use angzarr_router.Rebuild.Extending.{with_pages, rebuild-with_pages}
use angzarr_router.Domain.Emits.{Closures}
use angzarr_router.Domain.Table.{DomainDispatch, HandlerFn}
use angzarr_router.Domain.Deciding.{handler_of, decision_cover, decide, dispatch}
use angzarr_router.Domain.Replay.{pages_behind, decide_loop-Folds}
use angzarr_router.Domain.Answering.{dispatch-Answers}

module _ ⦃w : Wire⦄ where
  -- The pages that a coordinator persists for an answer: its events, at the sequences on from the
  -- head that the request carried, each with the metadata of the request.
  abbrev pub persisted_pages : HandleRequest → HandleResponse → List EventPage
  persisted_pages req resp =
      number_pages resp.events (next_sequence req.history % 2 ^ 64)
        (event_meta (command_context req) resp.rules_version)

module _ ⦃w : Wire⦄ ⦃r : Reasons⦄ {S K : Type 0} (closures : Closures S K)
    (d : DomainDispatch S K) where
  decide-fold_pages :
      (fuel : ℕ) (thunk : HandlerFn S K) (any : Any) (s : S) (ctx : CommandContext)
      (cover : Option w.Cover) (s' : S) (events : List Any)
      → d.rebuilder.fold ≡ none
      → decide closures fuel d thunk any s ctx cover ≡ some (s', ok events)
      → fold_pages d.rebuilder s (pages_behind d ctx cover 0 events) cover PageOrigin.emitted
        ≡ (s', ok tt)
  unfolding decide
  decide-fold_pages fuel thunk any s ctx cover s' events unbatched h =
      elim (Outcome-cases (call_handler (thunk any s ctx))) [
        | inl (emit, returned) ↦
            let f =
              decide_loop-Folds closures d ctx cover unbatched fuel s [] emit s' events
                (ground arith) in
            rw f.added f.folded
        | inr failed ↦ absurd (ground arith)
      ]

  -- Once the events of an answer are persisted behind the history that the request carried, a
  -- rebuild of the stream succeeds, and its state encodes to the state that the answer carried.
  -- For state folded by appliers, and a history that has its cover.
  pub dispatch-rebuild :
      (fuel : ℕ) (req : HandleRequest) (resp : HandleResponse) (book : EventBook) (c : w.Cover)
      → d.rebuilder.fold ≡ none
      → req.history ≡ some book
      → book.cover ≡ some c
      → dispatch closures fuel d req ≡ some (ok resp)
      → (s : S) × (info : RebuildInfo) × (rebuild d.rebuilder
            (some (with_pages book (persisted_pages req resp)))
          ≡ ok (s, info))
        × (encode_state d.rebuilder s ≡ ok resp.state)
  unfolding command_context
  dispatch-rebuild fuel req resp book c unbatched history covered h =
      let a = dispatch-Answers closures d req fuel resp h in
      let ctx = command_context req in
      let cover : decision_cover req ≡ book.cover = ground arith in
      let here : (ctx.next_sequence + 0) % 2 ^ 64 ≡ next_sequence req.history % 2 ^ 64 =
        omega arith in
      let folds =
        decide-fold_pages fuel (handler_of a.dispatched) a.payload a.start ctx (decision_cover req)
          a.final resp.events unbatched a.decided in
      let pages : persisted_pages req resp ≡ pages_behind d ctx (decision_cover req) 0 resp.events =
        rw (a.version, here) in
      (
        a.final,
        _,
        rebuild-with_pages d.rebuilder book (persisted_pages req resp) PageOrigin.emitted a.start
            a.final a.info unbatched (rw history at a.rebuilt) (rw (pages, ← cover) folds),
        a.encoded,
      )
