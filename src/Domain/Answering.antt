-- ===== src/Domain/Answering.antt =====
-- crates/router/src/domain.rs: what lies behind an answer of `DomainDispatch::dispatch`.
use angzarr_router.Prelude.{
  ℕ, ◌≡◌, some, List, Outcome, ok, err, panicked, inl, inr, and_then, arith, Outcome-cases,
  Option-cases,
}
use angzarr_router.Wire.Payload.{Any, untyped}
use angzarr_router.Wire.Messages.{Wire}
use angzarr_router.Wire.Requests.{HandleRequest, HandleResponse}
use angzarr_router.Errors.Reasons.{Reasons}
use angzarr_router.Errors.Types.{CodedError}
use angzarr_router.Context.{command_context}
use angzarr_router.Rebuild.Types.{RebuildInfo}
use angzarr_router.Rebuild.Building.{encode_state}
use angzarr_router.Rebuild.Rebuilding.{rebuild}
use angzarr_router.Domain.Emits.{Closures}
use angzarr_router.Domain.Table.{DomainDispatch, Dispatched, route}
use angzarr_router.Domain.Deciding.{
  handler_of, decision_cover, answer, decide, dispatch_routed, dispatch,
}

module _ ⦃w : Wire⦄ ⦃r : Reasons⦄ {S K : Type 0} (closures : Closures S K) (d : DomainDispatch S K)
    (req : HandleRequest) where
  -- The steps behind an answer: the input was routed, the history rebuilt, the handler and its
  -- continuation run to their end, and the state after them encoded.
  pub record Answers (fuel : ℕ) (resp : HandleResponse) : Type 0 where
    pub dispatched : Dispatched S K
    pub payload : Any
    pub routed : route d (and_then req.input (λ b. b.page)) untyped ≡ ok (dispatched, payload)
    pub start : S
    pub info : RebuildInfo
    pub rebuilt : rebuild d.rebuilder req.history ≡ ok (start, info)
    pub final : S
    pub decided :
        decide closures fuel d
          (handler_of dispatched)
          payload
          start
          (command_context req)
          (decision_cover req)
        ≡ some (final, ok resp.events)
    pub encoded : encode_state d.rebuilder final ≡ ok resp.state
    pub version : resp.rules_version ≡ d.rules_version

  answer-eq-ok :
      (dispatched : Dispatched S K) (final : S) (outcome : Outcome CodedError (List Any))
      (resp : HandleResponse)
      → answer d dispatched (final, outcome) ≡ ok resp
      → (outcome ≡ ok resp.events)
        × (encode_state d.rebuilder final ≡ ok resp.state)
        × (resp.rules_version ≡ d.rules_version)
  answer-eq-ok dispatched final (ok events) resp h =
      elim (Outcome-cases (encode_state d.rebuilder final)) [
        | inl (state, encoded) ↦ (ground arith, ground arith, ground arith)
        | inr (inl (e, failed)) ↦ absurd e
        | inr (inr failed) ↦ absurd (ground arith)
      ]
  answer-eq-ok dispatched final (err e) resp h = cc
  answer-eq-ok dispatched final panicked resp h = cc

  dispatch_routed-Answers :
      (fuel : ℕ) (dispatched : Dispatched S K) (any : Any) (resp : HandleResponse)
      → route d (and_then req.input (λ b. b.page)) untyped ≡ ok (dispatched, any)
      → dispatch_routed closures fuel d req dispatched any ≡ some (ok resp)
      → Answers fuel resp
  unfolding dispatch_routed
  dispatch_routed-Answers fuel dispatched any resp routed h =
      elim (Outcome-cases (rebuild d.rebuilder req.history)) [
        | inl ((start, info), rebuilt) ↦
            elim (Option-cases (
              decide closures fuel d (handler_of dispatched) any start (command_context req)
                (decision_cover req))) [
                  | inl out ↦ absurd (ground arith)
                  | inr ((final, outcome), decided) ↦
                      let (ended, encoded, version) =
                        answer-eq-ok dispatched final outcome resp (ground arith) in
                      record {
                        dispatched = dispatched;
                        payload = any;
                        routed = routed;
                        start = start;
                        info = info;
                        rebuilt = rebuilt;
                        final = final;
                        decided = rw ended at decided;
                        encoded = encoded;
                        version = version;
                      }
                ]
        | inr failed ↦ absurd (ground arith)
      ]

  -- Every success of a dispatch has the steps of `Answers` behind it.
  pub dispatch-Answers :
      (fuel : ℕ) (resp : HandleResponse)
      → dispatch closures fuel d req ≡ some (ok resp)
      → Answers fuel resp
  unfolding dispatch
  dispatch-Answers fuel resp h =
      elim (Outcome-cases (route d (and_then req.input (λ b. b.page)) untyped)) [
        | inl ((dispatched, any), routed) ↦
            dispatch_routed-Answers fuel dispatched any resp routed (ground arith)
        | inr failed ↦ absurd (ground arith)
      ]
