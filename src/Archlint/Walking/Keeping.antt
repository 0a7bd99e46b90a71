-- ===== src/Archlint/Walking/Keeping.antt =====
-- tools/archlint/src/scan.rs: the walk of a target's module tree, on the table of modules.
use Prim.Native.String.{String}
use angzarr_router.Prelude.{
  ℕ, ◌≡◌, refl, sym, subst, inr, Option, none, some, List, [], ◌∷◌, ◌++◌, ok, and_run-eq-ok, ran,
  ran_equal,
}
use angzarr_router.Archlint.Texts.{Without}
use angzarr_router.Archlint.Model.{Scope, FilePath}
use angzarr_router.Archlint.FilePaths.{normalise, relative}
use angzarr_router.Archlint.Syntax.{Attribute, Item, ModBody, Items, Sources, Visits}
use angzarr_router.Archlint.Scanner.{Ctx, Scanner, register, record_use, record_include}
use angzarr_router.Archlint.Collecting.{scope_within, visit_all}
use angzarr_router.Archlint.Scanner.Names.{rsplit_once-child_of}
use angzarr_router.Archlint.Scanner.Closed.{Registered, Closed, Placed, Kept, Kept-refl, Kept-trans}
use angzarr_router.Archlint.Scanner.Registering.{register-Registered, register-Kept}
use angzarr_router.Archlint.Scanner.Importing.{record_use-Kept}
use angzarr_router.Archlint.Walking.{
  Load, record_includes, collect_item, module_file, child_ctx, no_source_file, walk_found,
  walk_item, walk_mod, walk_items,
}

-- The names of modules, as Rust's identifiers are: without a ':'.
unfoldable mutual
  pub PlainItem : Item → Type 0
  PlainItem (Item.mod_item attrs name body) = Without b':' name × PlainBody body
  PlainItem (Item.use_item attrs tree leading_colon line) = Unit
  PlainItem (Item.other attrs visits) = Unit

  pub PlainBody : ModBody → Type 0
  PlainBody (ModBody.inline items) = PlainItems items
  PlainBody ModBody.in_file = Unit

  pub PlainItems : Items → Type 0
  PlainItems Items.end = Unit
  PlainItems (Items.item i items) = PlainItem i × PlainItems items

-- The parser gives modules such names.
pub record PlainNames (sources : Sources) : Type 0 where
  pub parsed :
      (text : String) (items : Items) → sources.parse_file text ≡ ok items → PlainItems items

-- What holds of a scanner that a walk answers with.
ended :
    (sc sc1 sc' : Scanner)
    → Kept sc.modules sc1.modules
    → ran {E = String} sc1 ≡ ran sc'
    → Kept sc.modules sc'.modules
ended sc sc1 sc' kept went = subst (λ s. Kept sc.modules s.modules) (ran_equal sc1 sc' went) kept

same_table :
    (sc sc' : Scanner) → Closed sc.modules → sc'.modules ≡ sc.modules → Kept sc.modules sc'.modules
same_table sc sc' closed same = subst (Kept sc.modules) (sym same) (Kept-refl sc.modules closed)

record_includes-modules :
    (includes : List (ℕ × String)) (sc : Scanner) (ctx : Ctx) (scope : Scope)
    → (record_includes sc ctx scope includes).modules ≡ sc.modules
unfolding record_includes record_include
record_includes-modules [] sc ctx scope = refl
record_includes-modules ((line, lit) ∷ includes) sc ctx scope =
    record_includes-modules includes (record_include sc ctx scope line lit) ctx scope

module _ ⦃sources : Sources⦄ where
  collect_item-modules :
      (sc : Scanner) (ctx : Ctx) (scope : Scope) (attrs : List Attribute) (visits : Visits)
      → (collect_item sc ctx scope attrs visits).modules ≡ sc.modules
  unfolding collect_item
  collect_item-modules sc ctx scope attrs visits =
      let c =
        visit_all ctx (scope_within scope attrs) visits (record { refs = []; includes = [] }) in
      record_includes-modules c.includes (record sc { refs = sc.refs ++ c.refs }) ctx scope

  -- What the reading of a file does to the table.
  pub record LoadKeeps (load : Load) (root : String) : Type 0 where
    pub keeps :
        (sc sc' : Scanner) (ctx : Ctx)
        → Closed sc.modules
        → Placed sc.modules root ctx.module_name
        → load sc ctx ≡ some (ok sc')
        → Kept sc.modules sc'.modules

  module _ (load : Load) (root : String) (keeps : LoadKeeps load root) where
    -- A table that a module's items are walked with.
    pub record Ready (sc : Scanner) (ctx : Ctx) : Type 0 where
      pub closed : Closed sc.modules
      pub own : Registered sc.modules ctx.module_name
      pub above : Registered sc.modules root

    pub Ready-Kept :
        (sc sc' : Scanner) (ctx : Ctx) → Ready sc ctx → Kept sc.modules sc'.modules → Ready sc' ctx
    Ready-Kept sc sc' ctx ready kept = record {
      closed = kept.closed;
      own = kept.grows ctx.module_name ready.own;
      above = kept.grows root ready.above;
    }

    child_place :
        (sc : Scanner) (ctx : Ctx) (name : String) (scope : Scope)
        → Ready sc ctx
        → Without b':' name
        → Placed sc.modules root (child_ctx ctx name scope).module_name
    child_place sc ctx name scope ready plain = inr (
      ctx.module_name,
      name,
      rsplit_once-child_of ctx.module_name name plain,
      ready.own,
      ready.above,
    )

    pub register-Ready :
        (sc : Scanner) (ctx : Ctx)
        → Closed sc.modules
        → Placed sc.modules root ctx.module_name
        → Registered (register sc root ctx).modules root
        → Ready (register sc root ctx) ctx
    register-Ready sc ctx closed placed above = record {
      closed = (register-Kept sc root ctx closed placed).closed;
      own = register-Registered sc root ctx;
      above = above;
    }

    walk_found-Kept :
        (found : Option (FilePath × FilePath)) (name : String) (ctx : Ctx) (scope : Scope)
        (sc sc' : Scanner)
        → Without b':' name
        → Ready sc ctx
        → walk_found load root ctx name scope found sc ≡ some (ok sc')
        → Kept sc.modules sc'.modules
    walk_found-Kept none name ctx scope sc sc' plain ready went =
        let warned = no_source_file (relative sc.workspace_root ctx.file) name in
        ended sc (record sc { warnings = sc.warnings ++ warned ∷ [] }) sc'
          (Kept-refl sc.modules ready.closed) went
    walk_found-Kept (some (file, child_dir)) name ctx scope sc sc' plain ready went =
        keeps.keeps sc sc'
          (record (child_ctx ctx name scope) { file = normalise file; child_dir = child_dir })
          ready.closed (child_place sc ctx name scope ready plain) went

    mutual
      unfolding walk_item walk_mod walk_items PlainItem

      walk_item-Kept :
          (i : Item) (ctx : Ctx) (sc sc' : Scanner)
          → PlainItem i
          → Ready sc ctx
          → walk_item load root ctx i sc ≡ some (ok sc')
          → Kept sc.modules sc'.modules
      walk_item-Kept (Item.mod_item attrs name body) ctx sc sc' plain ready went =
          walk_mod-Kept body attrs name ctx (scope_within ctx.scope attrs) sc sc' plain ready went
      walk_item-Kept (Item.use_item attrs tree leading_colon line) ctx sc sc' plain ready went =
          let used =
            record_use-Kept sc ctx tree leading_colon line (scope_within ctx.scope attrs)
              ready.closed in
          ended sc (record_use sc ctx tree leading_colon line (scope_within ctx.scope attrs)) sc'
            used went
      walk_item-Kept (Item.other attrs visits) ctx sc sc' plain ready went =
          let collected = collect_item sc ctx (scope_within ctx.scope attrs) attrs visits in
          ended sc collected sc'
            (same_table sc collected ready.closed
              (collect_item-modules sc ctx (scope_within ctx.scope attrs) attrs visits))
            went

      walk_mod-Kept :
          (body : ModBody) (attrs : List Attribute) (name : String) (ctx : Ctx) (scope : Scope)
          (sc sc' : Scanner)
          → (Without b':' name × PlainBody body)
          → Ready sc ctx
          → walk_mod load root ctx attrs name scope body sc ≡ some (ok sc')
          → Kept sc.modules sc'.modules
      walk_mod-Kept (ModBody.inline items) attrs name ctx scope sc sc' (plain, inner) ready went =
          let child = child_ctx ctx name scope in
          let place = child_place sc ctx name scope ready plain in
          let entered = register-Kept sc root child ready.closed place in
          Kept-trans sc.modules (register sc root child).modules sc'.modules entered (
            walk_items-Kept items child (register sc root child) sc' inner
              (register-Ready sc child ready.closed place (entered.grows root ready.above)) went)
      walk_mod-Kept ModBody.in_file attrs name ctx scope sc sc' (plain, inner) ready went =
          walk_found-Kept (module_file ctx name attrs) name ctx scope sc sc' plain ready went

      pub walk_items-Kept :
          (items : Items) (ctx : Ctx) (sc sc' : Scanner)
          → PlainItems items
          → Ready sc ctx
          → walk_items load root ctx items sc ≡ some (ok sc')
          → Kept sc.modules sc'.modules
      walk_items-Kept Items.end ctx sc sc' plain ready went =
          ended sc sc sc' (Kept-refl sc.modules ready.closed) went
      walk_items-Kept (Items.item i items) ctx sc sc' (plain, others) ready went =
          let (sc1, one, rest) =
            and_run-eq-ok (walk_item load root ctx i sc) (λ sc1. walk_items load root ctx items sc1)
              went in
          let kept = walk_item-Kept i ctx sc sc1 plain ready one in
          Kept-trans sc.modules sc1.modules sc'.modules kept
            (walk_items-Kept items ctx sc1 sc' others (Ready-Kept sc sc1 ctx ready kept) rest)
