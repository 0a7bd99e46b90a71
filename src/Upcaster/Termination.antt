-- ===== src/Upcaster/Termination.antt =====
-- crates/router/src/upcaster.rs: how long `upcast` runs.
use angzarr_router.Prelude.{
  ℕ, zero, suc, ◌≤◌, ◌<◌, String, ◌≡◌, ◌⊎◌, refl, inl, inr, false, Option, none, some, List, [],
  ◌∷◌, Dict, lookup, contains, length, Outcome, ok, err, panicked, Fueled, and_run, arith,
  Option-cases, Outcome-cases, Bool-cases, eq_iff, if◌then◌else◌,
}
use angzarr_router.Wire.Payload.{Any}
use angzarr_router.Wire.Messages.{Wire, EventPage}
use angzarr_router.Wire.Requests.{UpcastInput, UpcastRequest}
use angzarr_router.Wire.Reading.{type_name_from_url, page_event}
use angzarr_router.Errors.Reasons.{Reasons}
use angzarr_router.Errors.Types.{CodedError}
use angzarr_router.Errors.Coded.{call_handler}
use angzarr_router.Errors.Calls.{call_handler-ne-panicked}
use angzarr_router.Upcaster.{
  RuleFn, UpcasterDispatch, upcast_loop, upcast, upcast_page, upcast_pages, upcast_input, dispatch,
}

-- How many rules have not been applied.
remaining : Dict RuleFn → List String → ℕ
remaining [] applied = 0
remaining ((k, rule) ∷ rules) applied =
    let rest = remaining rules applied in if contains k applied then rest else suc rest

remaining-le-length :
    (rules : Dict RuleFn) (applied : List String) → remaining rules applied ≤ length rules
unfolding remaining
remaining-le-length [] applied = omega arith
remaining-le-length ((k, rule) ∷ rules) applied = ground (arith, remaining-le-length rules applied)

remaining-cons-le :
    (rules : Dict RuleFn) (applied : List String) (name : String)
    → remaining rules (name ∷ applied) ≤ remaining rules applied
unfolding remaining
remaining-cons-le [] applied name = omega arith
remaining-cons-le ((k, rule) ∷ rules) applied name =
    ground (arith, remaining-cons-le rules applied name)

remaining-cons-lt :
    (rules : Dict RuleFn) (applied : List String) (name : String) (rule : RuleFn)
    → lookup name rules ≡ some rule
    → contains name applied ≡ false
    → remaining rules (name ∷ applied) < remaining rules applied
unfolding remaining lookup
remaining-cons-lt [] applied name rule h new = absurd (ground arith)
remaining-cons-lt ((k, _) ∷ rules) applied name rule h new = ground (
  arith,
  eq_iff k name,
  eq_iff name k,
  remaining-cons-lt rules applied name rule,
  remaining-cons-le rules applied name,
)

-- A call that answers: with a value or with an error, so that it neither runs out of fuel nor unwinds.
abbrev pub Answered : {A : Type 0} → Fueled CodedError A → Type 0
Answered {A} call = ((a : A) × (call ≡ some (ok a))) ⊎ ((e : CodedError) × (call ≡ some (err e)))

and_run-Answered :
    {A B : Type 0} (call : Fueled CodedError A) (next : A → Fueled CodedError B)
    → Answered call
    → ((a : A) → Answered (next a))
    → Answered (and_run call next)
and_run-Answered none next (inl (a, h)) goes = cc
and_run-Answered none next (inr (e, h)) goes = cc
and_run-Answered (some (ok a)) next h goes = goes a
and_run-Answered (some (err e)) next h goes = inr (e, refl)
and_run-Answered (some panicked) next (inl (a, h)) goes = cc
and_run-Answered (some panicked) next (inr (e, h)) goes = cc

module _ ⦃r : Reasons⦄ where
  upcast_loop-Answered :
      (fuel : ℕ) (rules : Dict RuleFn) (applied : List String) (a : Any)
      → remaining rules applied < fuel
      → Answered (upcast_loop fuel rules applied a)
  unfolding upcast_loop
  upcast_loop-Answered zero rules applied a h = absurd (omega arith)
  upcast_loop-Answered (suc fuel) rules applied a h =
      let name = type_name_from_url a.type_url in
      elim (Option-cases (lookup name rules)) [
        | inl unruled ↦ inl (a, ground arith)
        | inr (rule, found) ↦ elim (Bool-cases (contains name applied)) [
          | inl again ↦ inl (a, ground arith)
          | inr new ↦ elim (Outcome-cases (call_handler (rule a))) [
            | inr (inl (e, fails)) ↦ inr (e, ground arith)
            | inr (inr unwound) ↦ absurd (call_handler-ne-panicked (rule a) unwound)
            | inl (b, brought) ↦
                let fewer = remaining-cons-lt rules applied name rule found new in
                elim (upcast_loop-Answered fuel rules (name ∷ applied) b (omega (arith, fewer))) [
                  | inl (c, ends) ↦ inl (c, ground arith)
                  | inr (e, ends) ↦ inr (e, ground arith)
                ]
          ]
        ]
      ]

  upcast-Answered : (u : UpcasterDispatch) (a : Any) → Answered (upcast u a)
  unfolding upcast
  upcast-Answered u a =
      upcast_loop-Answered (suc (length u.rules)) u.rules [] a
        (omega (arith, remaining-le-length u.rules []))

  -- Bringing a payload through its rules always ends, whatever the rules do: the fuel of one round
  -- more than there are rules is enough.
  pub upcast_total :
      (u : UpcasterDispatch) (a : Any) → (out : Outcome CodedError Any) × (upcast u a ≡ some out)
  upcast_total u a = elim (upcast-Answered u a) [
    | inl (b, ends) ↦ (ok b, ends)
    | inr (e, ends) ↦ (err e, ends)
  ]

  module _ ⦃w : Wire⦄ (u : UpcasterDispatch) where
    upcast_page-Answered : (page : EventPage) → Answered (upcast_page u page)
    unfolding upcast_page
    upcast_page-Answered page = elim (Option-cases (page_event page)) [
      | inl no_event ↦ rw no_event (inl (_, refl))
      | inr (event, held) ↦ rw held (
          and_run-Answered _ _
            (and_run-Answered (upcast u event) _ (upcast-Answered u event) (λ a. inl (_, refl)))
            (λ payload. inl (_, refl)))
    ]

    upcast_pages-Answered : (pages : List EventPage) → Answered (upcast_pages u pages)
    unfolding upcast_pages
    upcast_pages-Answered [] = inl ([], refl)
    upcast_pages-Answered (page ∷ pages) =
        and_run-Answered (upcast_page u page) _ (upcast_page-Answered page) (λ x.
          and_run-Answered (upcast_pages u pages) _ (upcast_pages-Answered pages)
            (λ xs. inl (_, refl)))

    upcast_input-Answered : (input : Option UpcastInput) → Answered (upcast_input u input)
    upcast_input-Answered none = inl ([], refl)
    upcast_input-Answered (some (UpcastInput.lone_payload a)) =
        and_run-Answered (upcast u a) _ (upcast-Answered u a) (λ b. inl (_, refl))
    upcast_input-Answered (some (UpcastInput.pages pages)) = upcast_pages-Answered pages

    -- Every request for an upcast is answered, with a response or with an error: whatever the rules do,
    -- the dispatch ends and does not unwind.
    pub dispatch-Answered : (req : UpcastRequest) → Answered (dispatch u req)
    unfolding dispatch
    dispatch-Answered req =
        and_run-Answered (upcast_input u req.input) _ (upcast_input-Answered req.input)
          (λ pages. inl (_, refl))
