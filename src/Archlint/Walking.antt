-- ===== src/Archlint/Walking.antt =====
-- tools/archlint/src/scan.rs: the walk of a target's module tree. A `mod` whose `#[path]` leads back to a
-- file that is being read is not refused by the source, so the files read one within another take fuel
-- here, and `none` says that it ran out.
pub mod Keeping
pub mod Targets
pub mod Ending
pub mod Testing
use Prim.Native.String.{String, ◌++◌ as append}
use angzarr_router.Prelude.{
  ℕ, zero, suc, Bool, true, false, Option, none, some, List, [], ◌∷◌, ◌++◌, Outcome, ok, err,
  panicked, Fueled, and_run, insert_ordered, if◌then◌else◌,
}
use angzarr_router.Archlint.Model.{Scope, FilePath}
use angzarr_router.Archlint.FilePaths.{
  relative, components, join_path, parent_dir, normalise, display_path,
}
use angzarr_router.Archlint.Syntax.{
  Attribute, Item, ModBody, Items, Sources, item_attrs, is_cfg_test, path_attr, Visits,
}
use angzarr_router.Archlint.Scanner.{Ctx, Scanner, register, record_use, record_include}
use angzarr_router.Archlint.Collecting.{Collected, scope_within, visit_all}

-- The includes of one item, in `Scanner::walk_items`.
unfoldable pub record_includes : Scanner → Ctx → Scope → List (ℕ × String) → Scanner
unfolding record_include
record_includes sc ctx scope [] = sc
record_includes sc ctx scope ((line, lit) ∷ includes) =
    record_includes (record_include sc ctx scope line lit) ctx scope includes

-- `{file}: cannot read`, and the other texts of the walk.
abbrev pub cannot_read : FilePath → String
cannot_read file = append (display_path file) ": cannot read"

abbrev pub cannot_parse : FilePath → String → String
cannot_parse file e = append (display_path file) (append ": " e)

abbrev pub no_source_file : FilePath → String → String
no_source_file file name =
    append (display_path file) (append ": module `" (append name "` has no source file"))

module _ ⦃sources : Sources⦄ where
  -- The items that are neither modules nor uses, in `Scanner::walk_items`.
  unfoldable pub collect_item : Scanner → Ctx → Scope → List Attribute → Visits → Scanner
  unfolding record_includes scope_within visit_all
  collect_item sc ctx scope attrs visits =
      let c =
        visit_all ctx (scope_within scope attrs) visits (record { refs = []; includes = [] }) in
      record_includes (record sc { refs = sc.refs ++ c.refs }) ctx scope c.includes

  -- The file of a `mod` without a body and the directory of its children, in `Scanner::walk_mod`.
  unfoldable pub module_file : Ctx → String → List Attribute → Option (FilePath × FilePath)
  unfolding components join_path parent_dir path_attr
  module_file ctx name attrs = elim (path_attr attrs) [
    | some p ↦
        let file = join_path (parent_dir ctx.file) (components p) in some (file, parent_dir file)
    | none ↦
        let dir = join_path ctx.child_dir (components name) in
        let flat = join_path ctx.child_dir (components (append name ".rs")) in
        let nested = join_path dir (components "mod.rs") in
        if sources.exists flat
        then some (flat, dir)
        else if sources.exists nested
        then some (nested, dir)
        else none
  ]

  -- The `Ctx` of a child, in `Scanner::walk_mod`.
  abbrev pub child_ctx : Ctx → String → Scope → Ctx
  child_ctx ctx name scope = record {
    module_name = append ctx.module_name (append "::" name);
    file = ctx.file;
    child_dir = join_path ctx.child_dir (components name);
    scope = scope;
  }

  abbrev pub Load : Type 0
  Load = Scanner → Ctx → Fueled String Scanner

  module _ (load : Load) (root : String) where
    -- A `mod` without a body, with its file or none, in `Scanner::walk_mod`.
    abbrev pub walk_found :
        Ctx → String → Scope → Option (FilePath × FilePath) → Scanner → Fueled String Scanner
    walk_found ctx name scope none sc = some (
        ok (record sc {
          warnings = sc.warnings ++ no_source_file (relative sc.workspace_root ctx.file) name ∷ [];
        }))
    walk_found ctx name scope (some (file, child_dir)) sc =
        load sc (record (child_ctx ctx name scope) { file = normalise file; child_dir = child_dir })

    -- `Scanner::walk_items` and `Scanner::walk_mod`, over the reading of a file.
    unfoldable mutual
      unfolding scope_within collect_item module_file register record_use item_attrs normalise
          relative

      pub walk_item : Ctx → Item → Scanner → Fueled String Scanner
      walk_item ctx (Item.mod_item attrs name body) sc =
          walk_mod ctx attrs name (scope_within ctx.scope attrs) body sc
      walk_item ctx (Item.use_item attrs tree leading_colon line) sc =
          some (ok (record_use sc ctx tree leading_colon line (scope_within ctx.scope attrs)))
      walk_item ctx (Item.other attrs visits) sc =
          some (ok (collect_item sc ctx (scope_within ctx.scope attrs) attrs visits))

      pub walk_mod :
          Ctx → List Attribute → String → Scope → ModBody → Scanner → Fueled String Scanner
      walk_mod ctx attrs name scope (ModBody.inline items) sc =
          let child = child_ctx ctx name scope in walk_items child items (register sc root child)
      walk_mod ctx attrs name scope ModBody.in_file sc =
          walk_found ctx name scope (module_file ctx name attrs) sc

      pub walk_items : Ctx → Items → Scanner → Fueled String Scanner
      walk_items ctx Items.end sc = some (ok sc)
      walk_items ctx (Items.item i items) sc =
          and_run (walk_item ctx i sc) (λ sc'. walk_items ctx items sc')

  -- `Scanner::walk_file`, once its text is read and parsed.
  abbrev pub walk_parsed :
      Load → String → Ctx → Outcome String Items → Scanner → Fueled String Scanner
  walk_parsed load root ctx (ok items) sc = walk_items load root ctx items (register sc root ctx)
  walk_parsed load root ctx (err e) sc = some (err (cannot_parse ctx.file e))
  walk_parsed load root ctx panicked sc = some panicked

  -- `Scanner::walk_file`.
  unfoldable pub walk_file : ℕ → String → Load
  walk_file zero root sc ctx = none
  walk_file (suc fuel) root sc ctx = elim (sources.read ctx.file) [
    | none ↦ some (err (cannot_read ctx.file))
    | some text ↦ walk_parsed (walk_file fuel root) root ctx (sources.parse_file text) sc
  ]

  -- `Scanner::add_target`.
  unfoldable pub add_target :
      ℕ → Scanner → String → FilePath → Scope → List String → Fueled String Scanner
  unfolding parent_dir
  add_target fuel sc root src scope known =
      walk_file fuel root (record sc { known = insert_ordered root known sc.known })
        (record { module_name = root; file = src; child_dir = parent_dir src; scope = scope })
