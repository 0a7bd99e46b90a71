-- ===== src/Policy/Reacting.antt =====
-- crates/router/src/policy.rs: the reaction of a policy, case by case.
use angzarr_router.Prelude.{
  Option, String, ◌≡◌, ◌≢◌, refl, none, some, lookup, lookup-insert, first, Outcome, ok, err,
  panicked, ◌>>=◌, inl, inr, arith, Option-cases, ◌==◌, if◌then◌else◌,
}
use angzarr_router.Wire.Payload.{Any}
use angzarr_router.Wire.Messages.{Wire, EventPage, EventBook}
use angzarr_router.Wire.Requests.{ReactRequest, ReactResponse}
use angzarr_router.Wire.Reading.{type_name_from_url, PageContext}
use angzarr_router.Errors.Reasons.{Reasons}
use angzarr_router.Errors.Types.{CodedError}
use angzarr_router.Errors.Coded.{call_handler}
use angzarr_router.Errors.Calls.{call_handler-ne-panicked}
use angzarr_router.Policy.{EventFn, PolicyDispatch, on_event, first_event, react_on, react}

module _ ⦃w : Wire⦄ ⦃r : Reasons⦄ where
  >>=-ok-ne-panicked :
      {A B : Type 0} (m : Outcome CodedError A) (f : A → B)
      → m ≢ panicked
      → (m >>= λ a. ok (f a)) ≢ panicked
  >>=-ok-ne-panicked (ok a) f ne h = cc
  >>=-ok-ne-panicked (err e) f ne h = cc
  >>=-ok-ne-panicked panicked f ne h = ne refl

  react_on-ne-panicked :
      (p : PolicyDispatch) (trigger : EventBook) (page : EventPage) (event : Any)
      → react_on p trigger page event ≢ panicked
  react_on-ne-panicked p trigger page event h =
      elim (Option-cases (lookup (type_name_from_url event.type_url) p.handlers)) [
        | inl unhandled ↦ ground arith
        | inr (thunk, found) ↦
            let ctx : PageContext = record {
              cover = trigger.cover;
              sequence = page.sequence;
              meta = page.meta;
            } in
            >>=-ok-ne-panicked {B = ReactResponse} (call_handler (thunk event ctx))
              (λ outputs. record { outputs = outputs }) (call_handler-ne-panicked (thunk event ctx))
              (ground arith)
      ]

  -- A reaction never unwinds, whatever the policy's callback does.
  react-ne-panicked : (p : PolicyDispatch) (req : ReactRequest) → react p req ≢ panicked
  unfolding react
  react-ne-panicked p req h = elim (Option-cases req.trigger) [
    | inl absent ↦ ground arith
    | inr (trigger, given) ↦ elim (Option-cases (first_event trigger)) [
      | inl eventless ↦ ground arith
      | inr ((page, event), held) ↦ react_on-ne-panicked p trigger page event (ground arith)
    ]
  ]

  -- A reaction rests on the trigger's cover and its first page alone.
  react_of_first :
      (p : PolicyDispatch) (t u : EventBook)
      → t.cover ≡ u.cover
      → first t.pages ≡ first u.pages
      → react p (record { trigger = some t }) ≡ react p (record { trigger = some u })
  unfolding react
  react_of_first p t u covers pages = elim (Option-cases (first_event t)) [
    | inl eventless ↦ let other : first_event u ≡ none = ground arith in ground (arith, other)
    | inr ((page, event), held) ↦
        let other : first_event u ≡ some (page, event) = ground arith in ground (arith, other)
  ]

  -- What a handler of a type answers to a trigger, whose first event is this one or which has none; where
  -- it is not the handler's, this other answer.
  abbrev pub answered_by :
      String
      → EventFn
      → EventBook
      → Outcome CodedError ReactResponse
      → Option (EventPage × Any)
      → Outcome CodedError ReactResponse
  answered_by name thunk t other none = other
  answered_by name thunk t other (some (page, event)) =
      if name == type_name_from_url event.type_url
      then (call_handler
            (thunk event (record { cover = t.cover; sequence = page.sequence; meta = page.meta }))
          >>= λ outputs. ok (record { outputs = outputs }))
      else other

  -- Registering a handler sends it exactly the triggers whose first page holds an event of its type, and
  -- leaves the reaction to every other trigger, also one without a first event, as it was.
  pub react-on_event :
      (p : PolicyDispatch) (name : String) (thunk : EventFn) (t : EventBook)
      → react (on_event p name thunk) (record { trigger = some t })
        ≡ answered_by name thunk t (react p (record { trigger = some t })) (first_event t)
  unfolding react on_event
  react-on_event p name thunk t = elim (Option-cases (first_event t)) [
    | inl eventless ↦ ground arith
    | inr ((page, event), held) ↦
        ground (arith, lookup-insert name (type_name_from_url event.type_url) thunk p.handlers)
  ]
