-- ===== src/Archlint/Scanner.antt =====
-- tools/archlint/src/scan.rs: the scanner's state, and how modules, refs and edges enter it.
pub mod Names
pub mod Closed
pub mod Registering
pub mod Importing
use Prim.Native.String.{String, ◌++◌ as append}
use text.Mathlib.Text.{◌==◌}
use angzarr_router.Prelude.{
  ℕ, Bool, true, false, Option, none, some, List, [], ◌∷◌, ◌++◌, Dict, lookup, insert_ordered,
  contains, unwrap_or, map_option, if◌then◌else◌,
}
use angzarr_router.Archlint.Texts.{strip_prefix}
use angzarr_router.Archlint.Model.{Scope, Edge, FilePath}
use angzarr_router.Archlint.FilePaths.{relative, components, join_path, parent_dir, display_path}
use angzarr_router.Archlint.Uses.{UseTree, Leaf, flatten_use}

-- `ModuleInfo`; the children are a set.
pub record ModuleInfo : Type 0 where
  pub file : FilePath
  pub root : String
  pub children : List String
  pub aliases : Dict (List String)

-- `RawRef`.
pub record RawRef : Type 0 where
  pub module_name : String
  pub scope : Scope
  pub segs : List String
  pub leading_colon : Bool
  pub file : FilePath
  pub line : ℕ

-- `Ctx`.
pub record Ctx : Type 0 where
  pub module_name : String
  pub file : FilePath
  pub child_dir : FilePath
  pub scope : Scope

-- `Scanner`, but for the sources that its tests hold in memory.
pub record Scanner : Type 0 where
  pub workspace_root : FilePath
  pub modules : Dict ModuleInfo
  pub known : Dict (List String)
  pub workspace_crates : List String
  pub refs : List RawRef
  pub edges : List Edge
  pub warnings : List String

-- `BTreeSet::insert`, where only membership is asked.
abbrev pub insert_name : String → List String → List String
insert_name name names = if contains name names then names else name ∷ names

-- `rsplit_once("::")`.
unfoldable pub rsplit_once : String → Option (String × String)
unfolding strip_prefix
rsplit_once String.[] = none
rsplit_once (String.◌∷◌ c s) = elim (rsplit_once s) [
  | some (before, after) ↦ some (String.◌∷◌ c before, after)
  | none ↦ map_option (λ rest. ("", rest)) (strip_prefix "::" (String.◌∷◌ c s))
]

-- `Scanner::new`.
unfoldable pub new_scanner : FilePath → Scanner
new_scanner workspace_root = record {
  workspace_root = workspace_root;
  modules = [];
  known = [];
  workspace_crates = [];
  refs = [];
  edges = [];
  warnings = [];
}

-- `Scanner::add_workspace_crate`.
unfoldable pub add_workspace_crate : Scanner → String → Scanner
add_workspace_crate sc lib = record sc { workspace_crates = insert_name lib sc.workspace_crates }

-- `Scanner::add_manifest_edge`.
unfoldable pub add_manifest_edge : Scanner → String → String → Scope → FilePath → String → Scanner
unfolding relative
add_manifest_edge sc from to scope manifest via = record sc {
  edges =
      sc.edges
      ++ record {
        from = from;
        to = to;
        scope = scope;
        file = relative sc.workspace_root manifest;
        line = 0;
        via = via;
      }
        ∷ [];
}

-- `ModuleInfo::default()`.
abbrev pub default_info : ModuleInfo
default_info = record { file = []; root = ""; children = []; aliases = [] }

-- The modules of `Scanner::register`: the module's own entry, and then its parent's.
abbrev pub own_info : Dict ModuleInfo → String → Ctx → ModuleInfo
own_info modules root ctx = record (unwrap_or (lookup ctx.module_name modules) default_info) {
  file = ctx.file;
  root = root;
}

abbrev pub own_entry : Dict ModuleInfo → String → Ctx → Dict ModuleInfo
own_entry modules root ctx = insert_ordered ctx.module_name (own_info modules root ctx) modules

abbrev pub add_child : Option (String × String) → Dict ModuleInfo → Dict ModuleInfo
add_child none modules = modules
add_child (some (parent, name)) modules = elim (lookup parent modules) [
  | none ↦ modules
  | some p ↦ insert_ordered parent (record p { children = insert_name name p.children }) modules
]

-- `Scanner::register`.
unfoldable pub register : Scanner → String → Ctx → Scanner
register sc root ctx = record sc {
  modules = add_child (rsplit_once ctx.module_name) (own_entry sc.modules root ctx);
}

-- An imported name as an alias of a module, in `Scanner::record_use`.
abbrev pub add_alias : Dict ModuleInfo → String → Option String → List String → Dict ModuleInfo
add_alias modules module_name none segs = modules
add_alias modules module_name (some alias) segs = elim (lookup module_name modules) [
  | none ↦ modules
  | some info ↦
      insert_ordered module_name (record info { aliases = insert_ordered alias segs info.aliases })
        modules
]

-- The loop of `Scanner::record_use`, at module level.
unfoldable pub record_leaves : Scanner → Ctx → Scope → Bool → ℕ → List Leaf → Scanner
record_leaves sc ctx scope leading_colon line [] = sc
record_leaves sc ctx scope leading_colon line ((segs, alias) ∷ leaves) =
    record_leaves
      (record sc {
        modules = add_alias sc.modules ctx.module_name alias segs;
        refs =
            sc.refs
            ++ record {
              module_name = ctx.module_name;
              scope = scope;
              segs = segs;
              leading_colon = leading_colon;
              file = ctx.file;
              line = line;
            }
              ∷ [];
      })
      ctx scope leading_colon line leaves

-- `Scanner::record_use`.
unfoldable pub record_use : Scanner → Ctx → UseTree → Bool → ℕ → Scope → Scanner
unfolding record_leaves flatten_use
record_use sc ctx tree leading_colon line scope =
    record_leaves sc ctx scope leading_colon line (flatten_use tree [] [])

-- `Scanner::record_include`.
unfoldable pub record_include : Scanner → Ctx → Scope → ℕ → String → Scanner
unfolding relative components join_path parent_dir display_path
record_include sc ctx scope line lit =
    let target = relative sc.workspace_root (join_path (parent_dir ctx.file) (components lit)) in
    record sc {
      edges =
          sc.edges
          ++ record {
            from = ctx.module_name;
            to = append "path:" (display_path target);
            scope = scope;
            file = relative sc.workspace_root ctx.file;
            line = line;
            via = append "include!(\"" (append lit "\")");
          }
            ∷ [];
    }
