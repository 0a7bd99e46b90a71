-- ===== src/Archlint/Walking/Testing.antt =====
-- tools/archlint/src/scan.rs: the walk of test code.
use Prim.Native.String.{String}
use angzarr_router.Prelude.{
  ℕ, zero, suc, ◌≡◌, ap, subst, ◌∙◌, ◌⊎◌, inl, inr, Bool, true, Option, none, some, List, [], ◌∷◌,
  ◌++◌, Outcome, ok, err, panicked, and_run-eq-ok, ran, ran_equal, Member, append-Member,
  Option-cases, arith,
}
use angzarr_router.Archlint.Model.{Scope, Edge, FilePath}
use angzarr_router.Archlint.FilePaths.{normalise, relative}
use angzarr_router.Archlint.Uses.{Leaf, flatten_use}
use angzarr_router.Archlint.Syntax.{
  Attribute, Item, ModBody, Items, Sources, Visits, item_attrs, is_cfg_test,
}
use angzarr_router.Archlint.Scanner.{
  Ctx, Scanner, register, record_leaves, record_use, record_include,
}
use angzarr_router.Archlint.Collecting.{scope_within, visit_all}
use angzarr_router.Archlint.Collecting.Testing.{
  TestRefs, TestRefs-refl, TestRefs-trans, TestRefs-one, TestRefs-append, scope_within-eq-test,
  scope_within_gated, visit_all-TestRefs,
}
use angzarr_router.Archlint.Walking.{
  Load, record_includes, collect_item, module_file, child_ctx, no_source_file, walk_found,
  walk_item, walk_mod, walk_items, walk_parsed, walk_file,
}

-- What a walk adds to the references and the edges is of test code.
pub record OnlyTests (before after : Scanner) : Type 0 where
  pub refs : TestRefs before.refs after.refs
  pub edges : (e : Edge) → Member e after.edges → Member e before.edges ⊎ (e.scope ≡ Scope.test)

OnlyTests-refl : (sc : Scanner) → OnlyTests sc sc
OnlyTests-refl sc = record { refs = TestRefs-refl sc.refs; edges = λ e m. inl m }

OnlyTests-trans : (a b c : Scanner) → OnlyTests a b → OnlyTests b c → OnlyTests a c
OnlyTests-trans a b c one two = record {
  refs = TestRefs-trans a.refs b.refs c.refs one.refs two.refs;
  edges = λ e m. elim (two.edges e m) [ inl there ↦ one.edges e there | inr tests ↦ inr tests ];
}

ended :
    (sc sc1 sc' : Scanner) → OnlyTests sc sc1 → ran {E = String} sc1 ≡ ran sc' → OnlyTests sc sc'
ended sc sc1 sc' only went = subst (OnlyTests sc) (ran_equal sc1 sc' went) only

record_leaves-OnlyTests :
    (leaves : List Leaf) (sc : Scanner) (ctx : Ctx) (scope : Scope) (leading_colon : Bool)
    (line : ℕ)
    → scope ≡ Scope.test
    → OnlyTests sc (record_leaves sc ctx scope leading_colon line leaves)
unfolding record_leaves
record_leaves-OnlyTests [] sc ctx scope leading_colon line tests = OnlyTests-refl sc
record_leaves-OnlyTests ((segs, alias) ∷ leaves) sc ctx scope leading_colon line tests =
    OnlyTests-trans sc _ _ (record { refs = TestRefs-one sc.refs _ tests; edges = λ e m. inl m })
      (record_leaves-OnlyTests leaves _ ctx scope leading_colon line tests)

record_include-OnlyTests :
    (sc : Scanner) (ctx : Ctx) (scope : Scope) (line : ℕ) (lit : String)
    → scope ≡ Scope.test
    → OnlyTests sc (record_include sc ctx scope line lit)
unfolding record_include
record_include-OnlyTests sc ctx scope line lit tests = record {
  refs = TestRefs-refl sc.refs;
  edges = λ e m. elim (append-Member e sc.edges _ m) [
    | inl there ↦ inl there
    | inr (inl same) ↦ inr (ap (λ x. x.scope) same ∙ tests)
    | inr (inr nothing) ↦ absurd nothing
  ];
}

record_includes-OnlyTests :
    (includes : List (ℕ × String)) (sc : Scanner) (ctx : Ctx) (scope : Scope)
    → scope ≡ Scope.test
    → OnlyTests sc (record_includes sc ctx scope includes)
unfolding record_includes
record_includes-OnlyTests [] sc ctx scope tests = OnlyTests-refl sc
record_includes-OnlyTests ((line, lit) ∷ includes) sc ctx scope tests =
    OnlyTests-trans sc (record_include sc ctx scope line lit) _
      (record_include-OnlyTests sc ctx scope line lit tests)
      (record_includes-OnlyTests includes (record_include sc ctx scope line lit) ctx scope tests)

module _ ⦃sources : Sources⦄ where
  collect_item-OnlyTests :
      (sc : Scanner) (ctx : Ctx) (scope : Scope) (attrs : List Attribute) (visits : Visits)
      → scope ≡ Scope.test
      → OnlyTests sc (collect_item sc ctx scope attrs visits)
  unfolding collect_item
  collect_item-OnlyTests sc ctx scope attrs visits tests =
      let c =
        visit_all ctx (scope_within scope attrs) visits (record { refs = []; includes = [] }) in
      OnlyTests-trans sc (record sc { refs = sc.refs ++ c.refs }) _
        (record {
          refs = TestRefs-append sc.refs c.refs (λ r m.
              elim (visit_all-TestRefs ctx visits (scope_within scope attrs)
                (record { refs = []; includes = [] }) (scope_within-eq-test scope attrs tests) r
                m) [ inl nothing ↦ absurd nothing | inr tested ↦ tested ]);
          edges = λ e m. inl m;
        })
        (record_includes-OnlyTests c.includes (record sc { refs = sc.refs ++ c.refs }) ctx scope
          tests)

  abbrev LoadTests : Load → Type 0
  LoadTests load =
      (sc sc' : Scanner) (ctx : Ctx)
      → ctx.scope ≡ Scope.test
      → load sc ctx ≡ some (ok sc')
      → OnlyTests sc sc'

  module _ (load : Load) (root : String) (tests_only : LoadTests load) where
    register-OnlyTests : (sc : Scanner) (ctx : Ctx) → OnlyTests sc (register sc root ctx)
    unfolding register
    register-OnlyTests sc ctx = record { refs = TestRefs-refl sc.refs; edges = λ e m. inl m }

    walk_found-OnlyTests :
        (found : Option (FilePath × FilePath)) (name : String) (ctx : Ctx) (scope : Scope)
        (sc sc' : Scanner)
        → scope ≡ Scope.test
        → walk_found load root ctx name scope found sc ≡ some (ok sc')
        → OnlyTests sc sc'
    walk_found-OnlyTests none name ctx scope sc sc' tests went =
        let warned = no_source_file (relative sc.workspace_root ctx.file) name in
        ended sc (record sc { warnings = sc.warnings ++ warned ∷ [] }) sc'
          (record { refs = TestRefs-refl sc.refs; edges = λ e m. inl m }) went
    walk_found-OnlyTests (some (file, child_dir)) name ctx scope sc sc' tests went =
        tests_only sc sc'
          (record (child_ctx ctx name scope) { file = normalise file; child_dir = child_dir }) tests
          went

    mutual
      unfolding walk_item walk_mod walk_items item_attrs record_use

      walk_at-OnlyTests :
          (i : Item) (ctx : Ctx) (sc sc' : Scanner)
          → scope_within ctx.scope (item_attrs i) ≡ Scope.test
          → walk_item load root ctx i sc ≡ some (ok sc')
          → OnlyTests sc sc'
      walk_at-OnlyTests (Item.mod_item attrs name body) ctx sc sc' tests went =
          walk_mod-OnlyTests body attrs name ctx (scope_within ctx.scope attrs) sc sc' tests went
      walk_at-OnlyTests (Item.use_item attrs tree leading_colon line) ctx sc sc' tests went =
          ended sc _ sc'
            (record_leaves-OnlyTests (flatten_use tree [] []) sc ctx (scope_within ctx.scope attrs)
              leading_colon line tests)
            went
      walk_at-OnlyTests (Item.other attrs visits) ctx sc sc' tests went =
          ended sc (collect_item sc ctx (scope_within ctx.scope attrs) attrs visits) sc'
            (collect_item-OnlyTests sc ctx (scope_within ctx.scope attrs) attrs visits tests) went

      walk_mod-OnlyTests :
          (body : ModBody) (attrs : List Attribute) (name : String) (ctx : Ctx) (scope : Scope)
          (sc sc' : Scanner)
          → scope ≡ Scope.test
          → walk_mod load root ctx attrs name scope body sc ≡ some (ok sc')
          → OnlyTests sc sc'
      walk_mod-OnlyTests (ModBody.inline items) attrs name ctx scope sc sc' tests went =
          let child = child_ctx ctx name scope in
          OnlyTests-trans sc (register sc root child) sc' (register-OnlyTests sc child)
            (walk_items-OnlyTests items child (register sc root child) sc' tests went)
      walk_mod-OnlyTests ModBody.in_file attrs name ctx scope sc sc' tests went =
          walk_found-OnlyTests (module_file ctx name attrs) name ctx scope sc sc' tests went

      walk_items-OnlyTests :
          (items : Items) (ctx : Ctx) (sc sc' : Scanner)
          → ctx.scope ≡ Scope.test
          → walk_items load root ctx items sc ≡ some (ok sc')
          → OnlyTests sc sc'
      walk_items-OnlyTests Items.end ctx sc sc' tests went =
          ended sc sc sc' (OnlyTests-refl sc) went
      walk_items-OnlyTests (Items.item i items) ctx sc sc' tests went =
          let (sc1, one, rest) =
            and_run-eq-ok (walk_item load root ctx i sc) (λ sc1. walk_items load root ctx items sc1)
              went in
          OnlyTests-trans sc sc1 sc'
            (walk_at-OnlyTests i ctx sc sc1 (scope_within-eq-test ctx.scope (item_attrs i) tests)
              one)
            (walk_items-OnlyTests items ctx sc1 sc' tests rest)

  module _ (root : String) where
    walk_parsed-OnlyTests :
        (load : Load) (parsed : Outcome String Items) (ctx : Ctx) (sc sc' : Scanner)
        → LoadTests load
        → ctx.scope ≡ Scope.test
        → walk_parsed load root ctx parsed sc ≡ some (ok sc')
        → OnlyTests sc sc'
    walk_parsed-OnlyTests load (ok items) ctx sc sc' deeper tests went =
        OnlyTests-trans sc (register sc root ctx) sc' (register-OnlyTests load root deeper sc ctx)
          (walk_items-OnlyTests load root deeper items ctx (register sc root ctx) sc' tests went)
    walk_parsed-OnlyTests load (err e) ctx sc sc' deeper tests went = cc
    walk_parsed-OnlyTests load panicked ctx sc sc' deeper tests went = cc

    walk_file-OnlyTests : (fuel : ℕ) → LoadTests (walk_file fuel root)
    unfolding walk_file
    walk_file-OnlyTests zero sc sc' ctx tests went = cc
    walk_file-OnlyTests (suc fuel) sc sc' ctx tests went =
        elim (Option-cases (sources.read ctx.file)) [
          | inl missing ↦ absurd (ground arith)
          | inr (text, found) ↦
              walk_parsed-OnlyTests (walk_file fuel root) (sources.parse_file text) ctx sc sc'
                (walk_file-OnlyTests fuel) tests (rw (found, walk_file) at went)
        ]

    -- When the walk of an item answers a scanner, and the item is gated on `cfg(test)` or stands in test
    -- code, each reference and each edge that the walk adds has the test scope, through all the modules
    -- and files that the item leads to.
    pub walk_item-OnlyTests :
        (fuel : ℕ) (ctx : Ctx) (i : Item) (sc sc' : Scanner)
        → (is_cfg_test (item_attrs i) ≡ true) ⊎ (ctx.scope ≡ Scope.test)
        → walk_item (walk_file fuel root) root ctx i sc ≡ some (ok sc')
        → OnlyTests sc sc'
    walk_item-OnlyTests fuel ctx i sc sc' (inl gated) went =
        walk_at-OnlyTests (walk_file fuel root) root (walk_file-OnlyTests fuel) i ctx sc sc'
          (scope_within_gated ctx.scope (item_attrs i) gated) went
    walk_item-OnlyTests fuel ctx i sc sc' (inr tests) went =
        walk_at-OnlyTests (walk_file fuel root) root (walk_file-OnlyTests fuel) i ctx sc sc'
          (scope_within-eq-test ctx.scope (item_attrs i) tests) went
