-- ===== src/Domain/Replay.antt =====
-- crates/router/src/domain.rs: the state of a decision, and a fold of its events.
use angzarr_router.Prelude.{
  ℕ, zero, suc, ◌+◌, ◌%◌, ◌^◌, ◌≡◌, refl, ◌∙◌, Option, none, some, List, ◌++◌, length,
  length-append, ok, arith, inl, inr, Option-cases, Outcome-cases, append_assoc,
}
use angzarr_router.Wire.Payload.{Any}
use angzarr_router.Wire.Messages.{Wire, EventMeta, EventPage}
use angzarr_router.Errors.Reasons.{Reasons}
use angzarr_router.Errors.Coded.{call_handler}
use angzarr_router.Context.{CommandContext, event_meta}
use angzarr_router.Rebuild.Types.{PageOrigin}
use angzarr_router.Rebuild.Folding.{fold_pages, apply_pages, apply_emitted, number_pages}
use angzarr_router.Rebuild.Replay.{fold_pages-append}
use angzarr_router.Rebuild.Numbering.{number_pages-append}
use angzarr_router.Domain.Emits.{Emit, Closures, run_step}
use angzarr_router.Domain.Table.{DomainDispatch}
use angzarr_router.Domain.Deciding.{decide_loop}

module _ ⦃w : Wire⦄ ⦃r : Reasons⦄ {S K : Type 0} (d : DomainDispatch S K) (ctx : CommandContext)
    (cover : Option w.Cover) where
  -- The pages that a run of answered events will be persisted as, behind `k` others.
  abbrev pub pages_behind : ℕ → List Any → List EventPage
  pages_behind k events =
      number_pages events ((ctx.next_sequence + k) % 2 ^ 64) (event_meta ctx d.rules_version)

  -- What the loop adds to the answer, and that the state it ends in is those pages' fold.
  pub record Folds (s s' : S) (answered all : List Any) : Type 0 where
    pub new : List Any
    pub added : all ≡ answered ++ new
    pub folded :
        fold_pages d.rebuilder s (pages_behind (length answered) new) cover PageOrigin.emitted
        ≡ (s', ok tt)

  Folds-step :
      (s s1 s' : S) (answered events all : List Any)
      → fold_pages d.rebuilder s (pages_behind (length answered) events) cover PageOrigin.emitted
        ≡ (s1, ok tt)
      → Folds s1 s' (answered ++ events) all
      → Folds s s' answered all
  Folds-step s s1 s' answered events all h f = record {
    new = events ++ f.new;
    added = f.added ∙ append_assoc answered events f.new;
    folded =
        let k = ctx.next_sequence + length answered in
        let meta = event_meta ctx d.rules_version in
        let reach : k + length events ≡ ctx.next_sequence + length (answered ++ events) =
          omega (arith, length-append answered events) in
        rw
          (
            number_pages-append meta events f.new k,
            fold_pages-append d.rebuilder cover _ _ _ s s1 h,
            reach,
          )
          f.folded;
  }

  Folds-last :
      (s s' : S) (answered events : List Any)
      → fold_pages d.rebuilder s (pages_behind (length answered) events) cover PageOrigin.emitted
        ≡ (s', ok tt)
      → Folds s s' answered (answered ++ events)
  Folds-last s s' answered events h = record { new = events; added = refl; folded = h }

module _ ⦃w : Wire⦄ ⦃r : Reasons⦄ {S K : Type 0} (closures : Closures S K) (d : DomainDispatch S K)
    (ctx : CommandContext) (cover : Option w.Cover) (unbatched : d.rebuilder.fold ≡ none) where
  apply_emitted-fold_pages :
      (s : S) (events : List Any) (at : ℕ) (meta : EventMeta)
      → apply_emitted d.rebuilder s events cover at meta
        ≡ fold_pages d.rebuilder s (number_pages events at meta) cover PageOrigin.emitted
  unfolding apply_emitted apply_pages
  apply_emitted-fold_pages s events at meta = ground arith

  pub decide_loop-Folds :
      (fuel : ℕ) (s : S) (answered : List Any) (emit : Emit K) (s' : S) (all : List Any)
      → decide_loop closures fuel d s ctx cover answered emit ≡ some (s', ok all)
      → Folds d ctx cover s s' answered all
  unfolding decide_loop
  decide_loop-Folds zero s answered emit s' all h = cc
  decide_loop-Folds (suc fuel) s answered emit s' all h =
      let at = (ctx.next_sequence + length answered) % 2 ^ 64 in
      let meta = event_meta ctx d.rules_version in
      let applied = apply_emitted d.rebuilder s emit.events cover at meta in
      let same = apply_emitted-fold_pages s emit.events at meta in
      elim (Outcome-cases applied.1) [
        | inl (done, folds) ↦ elim (Option-cases emit.next) [
          | inl ended ↦
              let at_end : applied.0 ≡ s' = ground arith in
              let answers : answered ++ emit.events ≡ all = ground arith in
              rw (← at_end, ← answers)
                (Folds-last d ctx cover s applied.0 answered emit.events (ground arith))
          | inr (continuation, goes_on) ↦
              elim (Outcome-cases (call_handler (run_step closures continuation applied.0 ctx))) [
                | inl (emit', stepped) ↦
                    Folds-step d ctx cover s applied.0 s' answered emit.events all (ground arith) (
                      decide_loop-Folds fuel applied.0 (answered ++ emit.events) emit' s' all
                        (ground arith))
                | inr stopped ↦ absurd (ground arith)
              ]
        ]
        | inr failed ↦ absurd (ground arith)
      ]
