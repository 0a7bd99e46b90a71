-- ===== src/Upcaster.antt =====
-- crates/router/src/upcaster.rs: an upcaster's rules. The loop of `upcast` takes fuel, one more than the
-- number of rules: each rule runs at most once.
pub mod Termination
pub mod Bringing
use angzarr_router.Prelude.{
  ℕ, zero, suc, String, Bool, true, false, Option, none, some, List, [], ◌∷◌, Dict, lookup, insert,
  contains, length, Outcome, ok, err, panicked, Fueled, and_run,
}
use angzarr_router.Wire.Payload.{Any}
use angzarr_router.Wire.Messages.{Wire, EventPage}
use angzarr_router.Wire.Requests.{UpcastInput, UpcastRequest, UpcastKey, Upcasted, UpcastResponse}
use angzarr_router.Wire.Reading.{type_name_from_url, page_event}
use angzarr_router.Errors.Reasons.{Reasons}
use angzarr_router.Errors.Types.{CodedError, HandlerError}
use angzarr_router.Errors.Coded.{call_handler}

-- `RuleFn`.
abbrev pub RuleFn : Type 0
RuleFn = Any → Outcome HandlerError Any

-- `UpcasterDispatch`.
pub record UpcasterDispatch : Type 0 where
  pub name : String
  pub domain : String
  pub rules : Dict RuleFn

-- `UpcasterDispatch::new`.
unfoldable pub new_upcaster : String → String → UpcasterDispatch
new_upcaster name domain = record { name = name; domain = domain; rules = [] }

-- `UpcasterDispatch::rule`.
unfoldable pub rule : UpcasterDispatch → String → RuleFn → UpcasterDispatch
unfolding insert
rule u full_name thunk = record u { rules = insert full_name thunk u.rules }

module _ ⦃r : Reasons⦄ where
  -- The loop of `UpcasterDispatch::upcast`: the rules applied so far, and the payload.
  unfoldable pub upcast_loop : ℕ → Dict RuleFn → List String → Any → Fueled CodedError Any
  upcast_loop zero rules applied current = none
  upcast_loop (suc fuel) rules applied current =
      let name = type_name_from_url current.type_url in
      elim (lookup name rules) [
        | none ↦ some (ok current)
        | some thunk ↦ elim (contains name applied) [
          | true ↦ some (ok current)
          | false ↦ elim (call_handler (thunk current)) [
            | ok current' ↦ upcast_loop fuel rules (name ∷ applied) current'
            | err e ↦ some (err e)
            | panicked ↦ some panicked
          ]
        ]
      ]

  -- `UpcasterDispatch::upcast`.
  unfoldable pub upcast : UpcasterDispatch → Any → Fueled CodedError Any
  upcast u payload = upcast_loop (suc (length u.rules)) u.rules [] payload

  abbrev pub upcast_option : UpcasterDispatch → Option Any → Fueled CodedError (Option Any)
  upcast_option u none = some (ok none)
  upcast_option u (some event) = and_run (upcast u event) (λ a. some (ok (some a)))

  module _ ⦃w : Wire⦄ where
    -- One page's answer in `UpcasterDispatch::dispatch`.
    unfoldable pub upcast_page : UpcasterDispatch → EventPage → Fueled CodedError Upcasted
    upcast_page u page = and_run (upcast_option u (page_event page)) (λ payload.
        some (ok (record { key = some (UpcastKey.sequence page.sequence); payload = payload })))

    -- The pages' answers, up to the first that fails.
    unfoldable pub upcast_pages :
        UpcasterDispatch → List EventPage → Fueled CodedError (List Upcasted)
    upcast_pages u [] = some (ok [])
    upcast_pages u (page ∷ pages) =
        let rest = upcast_pages u pages in
        and_run (upcast_page u page) (λ x. and_run rest (λ xs. some (ok (x ∷ xs))))

    abbrev pub upcast_input :
        UpcasterDispatch → Option UpcastInput → Fueled CodedError (List Upcasted)
    upcast_input u none = some (ok [])
    upcast_input u (some (UpcastInput.lone_payload payload)) =
        and_run (upcast u payload)
          (λ a. some (ok (record { key = some UpcastKey.no_sequence; payload = some a } ∷ [])))
    upcast_input u (some (UpcastInput.pages pages)) = upcast_pages u pages

    -- `UpcasterDispatch::dispatch`.
    unfoldable pub dispatch : UpcasterDispatch → UpcastRequest → Fueled CodedError UpcastResponse
    dispatch u req =
        and_run (upcast_input u req.input) (λ pages. some (ok (record { pages = pages })))
