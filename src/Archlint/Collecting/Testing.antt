-- ===== src/Archlint/Collecting/Testing.antt =====
-- tools/archlint/src/scan.rs: the references that the collector finds in test code.
use Prim.Native.String.{String}
use angzarr_router.Prelude.{
  ℕ, ◌≡◌, refl, ap, subst, ◌∙◌, ◌⊎◌, inl, inr, Bool, true, false, ◌||◌, Option, none, some, List,
  [], ◌∷◌, ◌++◌, Member, append-Member, length, ltb, Bool-cases, if◌then◌else◌, arith,
}
use angzarr_router.Archlint.Model.{Scope}
use angzarr_router.Archlint.Uses.{Leaf, flatten_use}
use angzarr_router.Archlint.Syntax.{Attribute, Visit, Visits, Sources, is_cfg_test}
use angzarr_router.Archlint.Scanner.{RawRef, Ctx}
use angzarr_router.Archlint.Collecting.{
  Collected, push_ref, push_leaves, is_include, add_include, scope_within, visit, visit_all,
}

-- What is there beyond what was there before is of test code.
abbrev pub TestRefs : List RawRef → List RawRef → Type 0
TestRefs before after = (r : RawRef) → Member r after → Member r before ⊎ (r.scope ≡ Scope.test)

pub TestRefs-refl : (refs : List RawRef) → TestRefs refs refs
TestRefs-refl refs r m = inl m

pub TestRefs-trans : (a b c : List RawRef) → TestRefs a b → TestRefs b c → TestRefs a c
TestRefs-trans a b c one two r m = elim (two r m) [
  | inl there ↦ one r there
  | inr tests ↦ inr tests
]

pub TestRefs-append :
    (refs more : List RawRef)
    → ((r : RawRef) → Member r more → r.scope ≡ Scope.test)
    → TestRefs refs (refs ++ more)
TestRefs-append refs more tests r m = elim (append-Member r refs more m) [
  | inl there ↦ inl there
  | inr new ↦ inr (tests r new)
]

only_one :
    (new : RawRef)
    → new.scope ≡ Scope.test
    → (r : RawRef) → Member r (new ∷ [])
    → r.scope ≡ Scope.test
only_one new tests r (inl same) = ap (λ x. x.scope) same ∙ tests
only_one new tests r (inr m) = absurd m

pub TestRefs-one :
    (refs : List RawRef) (new : RawRef) → new.scope ≡ Scope.test → TestRefs refs (refs ++ new ∷ [])
TestRefs-one refs new tests = TestRefs-append refs (new ∷ []) (only_one new tests)

module _ ⦃sources : Sources⦄ where
  -- Within test code all is test code.
  pub scope_within-eq-test :
      (scope : Scope) (attrs : List Attribute)
      → scope ≡ Scope.test
      → scope_within scope attrs ≡ Scope.test
  unfolding scope_within
  scope_within-eq-test scope attrs tests = ground (arith, Bool-cases (is_cfg_test attrs))

  -- An item that is gated on test is.
  pub scope_within_gated :
      (scope : Scope) (attrs : List Attribute)
      → is_cfg_test attrs ≡ true
      → scope_within scope attrs ≡ Scope.test
  unfolding scope_within
  scope_within_gated scope attrs gated = ground arith

  module _ (ctx : Ctx) where
    push_leaves-TestRefs :
        (leaves : List Leaf) (scope : Scope) (c : Collected) (leading_colon : Bool) (line : ℕ)
        → scope ≡ Scope.test
        → TestRefs c.refs (push_leaves ctx scope c leading_colon line leaves).refs
    unfolding push_leaves push_ref
    push_leaves-TestRefs [] scope c leading_colon line tests = TestRefs-refl c.refs
    push_leaves-TestRefs ((segs, name) ∷ leaves) scope c leading_colon line tests =
        let one = push_ref ctx scope c segs leading_colon line in
        TestRefs-trans c.refs one.refs _ (TestRefs-one c.refs _ tests)
          (push_leaves-TestRefs leaves scope one leading_colon line tests)

    add_include-refs :
        (c : Collected) (name : String) (lit : Option String) (line : ℕ)
        → (add_include c name lit line).refs ≡ c.refs
    add_include-refs c name none line = refl
    add_include-refs c name (some lit) line = elim (Bool-cases (is_include name)) [
      | inl known ↦ rw (known, add_include) refl
      | inr other ↦ rw (other, add_include) refl
    ]

    path-TestRefs :
        (pushes : Bool) (scope : Scope) (c : Collected) (segs : List String) (leading_colon : Bool)
        (line : ℕ)
        → scope ≡ Scope.test
        → TestRefs c.refs (if pushes then push_ref ctx scope c segs leading_colon line else c).refs
    unfolding push_ref
    path-TestRefs true scope c segs leading_colon line tests = TestRefs-one c.refs _ tests
    path-TestRefs false scope c segs leading_colon line tests = TestRefs-refl c.refs

    mutual
      unfolding visit push_ref

      visit-TestRefs :
          (v : Visit) (scope : Scope) (c : Collected)
          → scope ≡ Scope.test
          → TestRefs c.refs (visit ctx scope v c).refs
      visit-TestRefs (Visit.path segs leading_colon line below) scope c tests =
          let pushes = ltb 1 (length segs) || leading_colon in
          let c1 = if pushes then push_ref ctx scope c segs leading_colon line else c in
          TestRefs-trans c.refs c1.refs _
            (path-TestRefs pushes scope c segs leading_colon line tests)
            (visit_all-TestRefs below scope c1 tests)
      visit-TestRefs (Visit.item attrs below) scope c tests =
          visit_all-TestRefs below (scope_within scope attrs) c
            (scope_within-eq-test scope attrs tests)
      visit-TestRefs (Visit.impl_item attrs below) scope c tests =
          visit_all-TestRefs below (scope_within scope attrs) c
            (scope_within-eq-test scope attrs tests)
      visit-TestRefs (Visit.use_item tree leading_colon line) scope c tests =
          push_leaves-TestRefs (flatten_use tree [] []) scope c leading_colon line tests
      visit-TestRefs Visit.mod_item scope c tests = TestRefs-refl c.refs
      visit-TestRefs (Visit.macro_call name lit line args below) scope c tests =
          let c1 = add_include c name lit line in
          let c2 = visit_all ctx scope args c1 in
          TestRefs-trans c.refs c2.refs _
            (subst (λ refs. TestRefs refs c2.refs) (add_include-refs c name lit line)
              (visit_all-TestRefs args scope c1 tests))
            (visit_all-TestRefs below scope c2 tests)

      pub visit_all-TestRefs :
          (visits : Visits) (scope : Scope) (c : Collected)
          → scope ≡ Scope.test
          → TestRefs c.refs (visit_all ctx scope visits c).refs
      visit_all-TestRefs Visits.end scope c tests = TestRefs-refl c.refs
      visit_all-TestRefs (Visits.call v visits) scope c tests =
          TestRefs-trans c.refs (visit ctx scope v c).refs _ (visit-TestRefs v scope c tests)
            (visit_all-TestRefs visits scope (visit ctx scope v c) tests)
