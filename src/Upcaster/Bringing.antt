-- ===== src/Upcaster/Bringing.antt =====
-- crates/router/src/upcaster.rs: the chain of rules behind an answer of `upcast`.
use angzarr_router.Prelude.{
  ℕ, zero, suc, String, ◌≡◌, ◌∙◌, ap, ◌⊎◌, inl, inr, true, false, none, some, List, [], ◌∷◌, Dict,
  lookup, contains, length, ok, arith, Option-cases, Outcome-cases, Bool-cases,
}
use angzarr_router.Wire.Payload.{Any}
use angzarr_router.Wire.Messages.{Wire, EventPage}
use angzarr_router.Wire.Requests.{UpcastKey, Upcasted}
use angzarr_router.Wire.Reading.{type_name_from_url, page_event}
use angzarr_router.Errors.Reasons.{Reasons}
use angzarr_router.Errors.Coded.{call_handler}
use angzarr_router.Errors.Calls.{call_handler-eq-ok}
use angzarr_router.Upcaster.{
  RuleFn, UpcasterDispatch, upcast_loop, upcast, upcast_page, upcast_pages,
}

module _ (rules : Dict RuleFn) where
  -- A chain from one payload to another: each rule is the one of its payload's type, has not run
  -- before, and answers the next payload; at the end there is no rule, or one that has run.
  pub data Brought : List String → Any → Any → Type 0 where
    unruled :
        (applied : List String) (a : Any)
        → lookup (type_name_from_url a.type_url) rules ≡ none
        → Brought applied a a
    again :
        (applied : List String) (a : Any)
        → contains (type_name_from_url a.type_url) applied ≡ true
        → Brought applied a a
    by_rule :
        (applied : List String) (a b out : Any) (rule : RuleFn)
        → lookup (type_name_from_url a.type_url) rules ≡ some rule
        → contains (type_name_from_url a.type_url) applied ≡ false
        → rule a ≡ ok b
        → Brought (type_name_from_url a.type_url ∷ applied) b out
        → Brought applied a out

  module _ ⦃r : Reasons⦄ where
    upcast_loop-Brought :
        (fuel : ℕ) (applied : List String) (a out : Any)
        → upcast_loop fuel rules applied a ≡ some (ok out)
        → Brought applied a out
    unfolding upcast_loop
    upcast_loop-Brought zero applied a out h = absurd (ground arith)
    upcast_loop-Brought (suc fuel) applied a out h =
        let name = type_name_from_url a.type_url in
        elim (Option-cases (lookup name rules)) [
          | inl missing ↦
              let same : a ≡ out = ground arith in rw (← same) (Brought.unruled applied a missing)
          | inr (rule, found) ↦ elim (Bool-cases (contains name applied)) [
            | inl ran ↦
                let same : a ≡ out = ground arith in rw (← same) (Brought.again applied a ran)
            | inr new ↦ elim (Outcome-cases (call_handler (rule a))) [
              | inl (b, answers) ↦
                  Brought.by_rule applied a b out rule found new
                    (call_handler-eq-ok (rule a) b answers)
                    (upcast_loop-Brought fuel (name ∷ applied) b out (ground arith))
              | inr failed ↦ absurd (ground arith)
            ]
          ]
        ]

module _ ⦃r : Reasons⦄ (u : UpcasterDispatch) where
  -- Where `upcast` answers a payload, a chain of the upcaster's rules, none of them run twice, leads
  -- to it from the one given, and goes no further.
  pub upcast-Brought : (a out : Any) → upcast u a ≡ some (ok out) → Brought u.rules [] a out
  unfolding upcast
  upcast-Brought a out h = upcast_loop-Brought u.rules (suc (length u.rules)) [] a out h

  -- One page's answer: its key is the page's sequence, and its payload the page's event, brought
  -- through the rules, or none for a page with no event.
  pub record Answered ⦃w : Wire⦄ (page : EventPage) (x : Upcasted) : Type 0 where
    pub key : x.key ≡ some (UpcastKey.sequence page.sequence)
    pub payload :
        ((page_event page ≡ none) × (x.payload ≡ none))
        ⊎ ((event : Any) × (out : Any) × (page_event page ≡ some event)
            × (x.payload ≡ some out)
            × Brought u.rules [] event out)

  -- The answers of a run of pages, in the pages' order.
  abbrev pub AllAnswered : ⦃w : Wire⦄ → List EventPage → List Upcasted → Type 0
  AllAnswered [] [] = Unit
  AllAnswered (p ∷ ps) (x ∷ xs) = Answered p x × AllAnswered ps xs
  AllAnswered _ _ = ⊥

  module _ ⦃w : Wire⦄ where
    upcast_page-Answered :
        (page : EventPage) (x : Upcasted) → upcast_page u page ≡ some (ok x) → Answered page x
    unfolding upcast_page
    upcast_page-Answered page x h = elim (Option-cases (page_event page)) [
      | inl eventless ↦ record { key = ground arith; payload = inl (eventless, ground arith) }
      | inr (event, held) ↦ elim (Option-cases (upcast u event)) [
        | inl out ↦ absurd (ground arith)
        | inr (outcome, ends) ↦ elim (Outcome-cases outcome) [
          | inl (out, answers) ↦ record {
            key = ground arith;
            payload =
                inr (
                  event,
                  out,
                  held,
                  ground arith,
                  upcast-Brought event out (ends ∙ ap some answers),
                );
          }
          | inr failed ↦ absurd (ground arith)
        ]
      ]
    ]

    -- Where a run of pages is answered, it is answered page by page, in order and without gaps.
    pub upcast_pages-AllAnswered :
        (pages : List EventPage) (xs : List Upcasted)
        → upcast_pages u pages ≡ some (ok xs)
        → AllAnswered pages xs
    unfolding upcast_pages
    upcast_pages-AllAnswered [] [] h = tt
    upcast_pages-AllAnswered [] (x ∷ xs) h = absurd (ground arith)
    upcast_pages-AllAnswered (p ∷ ps) [] h = absurd (ground arith)
    upcast_pages-AllAnswered (p ∷ ps) (x ∷ xs) h = elim (Option-cases (upcast_page u p)) [
      | inl out ↦ absurd (ground arith)
      | inr (one, ends) ↦ elim (Option-cases (upcast_pages u ps)) [
        | inl out ↦ absurd (ground arith)
        | inr (others, end) ↦
            (upcast_page-Answered p x (ground arith), upcast_pages-AllAnswered ps xs (ground arith))
      ]
    ]
