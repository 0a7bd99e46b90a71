-- ===== src/Archlint/Workspace.antt =====
-- tools/archlint/src/workspace.rs: the packages of the workspace, fed to the scanner.
pub mod Tables
pub mod Ending
pub mod Edges
use Prim.Native.Char.{code}
use Prim.Native.String.{String, ◌∷◌ as char_cons, ◌++◌ as append}
use text.Mathlib.Text.{◌==◌}
use angzarr_router.Prelude.{
  ℕ, Bool, true, false, Option, none, some, List, [], ◌∷◌, Outcome, ok, err, panicked, Fueled,
  and_run, unwrap_or, map_option, first, contains, any, is_some, nat_eq, if◌then◌else◌,
}
use angzarr_router.Archlint.Model.{FilePath, Scope, Model}
use angzarr_router.Archlint.FilePaths.{relative, display_path}
use angzarr_router.Archlint.Syntax.{Sources, find}
use angzarr_router.Archlint.Scanner.{
  Scanner, new_scanner, add_workspace_crate, add_manifest_edge, insert_name,
}
use angzarr_router.Archlint.Walking.{add_target}
use angzarr_router.Archlint.Finishing.{finish}

-- `Target`, `Dependency`, `Package` and `Metadata`.
pub record Target : Type 0 where
  pub name : String
  pub kind : List String
  pub src_path : FilePath

pub record Dependency : Type 0 where
  pub name : String
  pub rename : Option String
  pub kind : Option String
  pub path : Option FilePath

pub record Package : Type 0 where
  pub name : String
  pub manifest_path : FilePath
  pub targets : List Target
  pub dependencies : List Dependency

pub record Metadata : Type 0 where
  pub packages : List Package
  pub workspace_root : FilePath

-- `LIB_KINDS`.
abbrev pub lib_kinds : List String
lib_kinds = "lib" ∷ "rlib" ∷ "dylib" ∷ "cdylib" ∷ "staticlib" ∷ "proc-macro" ∷ []

abbrev test_kinds : List String
test_kinds = "test" ∷ "bench" ∷ "example" ∷ []

-- `replace('-', "_")`.
unfoldable pub underscored : String → String
underscored String.[] = ""
underscored (String.◌∷◌ c s) =
    let rest = underscored s in if nat_eq (code c) b'-' then append "_" rest else char_cons c rest

-- `Target::is_lib`, `Target::root_module` and `Target::scope`.
unfoldable pub is_lib : Target → Bool
is_lib target = any (λ k. contains k lib_kinds) target.kind

abbrev kind_name : Option String → String
kind_name none = "target"
kind_name (some kind) = if kind == "custom-build" then "build" else kind

unfoldable pub root_module : Target → String → String
unfolding is_lib
root_module target lib =
    if is_lib target
    then lib
    else append lib (append "::" (append (kind_name (first target.kind)) (append "#" target.name)))

unfoldable pub target_scope : Target → Scope
target_scope target = if any (λ k. contains k test_kinds) target.kind then Scope.test else Scope.lib

-- `Package::lib_name`.
unfoldable pub lib_name : Package → String
unfolding is_lib underscored
lib_name pkg = elim (find is_lib pkg.targets) [
  | none ↦ underscored pkg.name
  | some target ↦ target.name
]

-- `Dependency::code_name`, and `Dependency::scope`.
unfoldable pub code_name : Dependency → String
unfolding underscored
code_name dep = underscored (unwrap_or dep.rename dep.name)

abbrev pub is_kind : Option String → String → Bool
is_kind none kind = false
is_kind (some k) kind = k == kind

unfoldable pub dependency_scope : Dependency → Scope
dependency_scope dep = if is_kind dep.kind "dev" then Scope.test else Scope.lib

abbrev table : Dependency → String
table dep =
    if is_kind dep.kind "dev"
    then "dev-dependencies"
    else if is_kind dep.kind "build"
    then "build-dependencies"
    else "dependencies"

abbrev via_manifest : Dependency → String
via_manifest dep = append "[" (append (table dep) (append "] " dep.name))

-- The crates that a package's code may name, in `build_model`.
abbrev code_names : List Dependency → List String → List String
code_names [] names = names
code_names (dep ∷ deps) names = code_names deps (insert_name (code_name dep) names)

unfoldable pub known_crates : Package → List String
unfolding lib_name code_name
known_crates pkg =
    insert_name (lib_name pkg) (
      insert_name "alloc" (insert_name "core" (insert_name "std" (code_names pkg.dependencies []))))

abbrev path_target : Metadata → Scanner → Dependency → Option String
path_target meta sc dep = elim (dep.path) [
  | none ↦ none
  | some path ↦
      if any (λ p. p.name == dep.name) meta.packages
      then none
      else some (append "path:" (display_path (relative sc.workspace_root path)))
]

-- The loop over the dependencies of a package, in `build_model`.
unfoldable pub add_dependency : Metadata → Package → Scanner → Dependency → Scanner
unfolding add_manifest_edge code_name dependency_scope lib_name relative display_path
add_dependency meta pkg sc dep =
    let lib = lib_name pkg in
    let named =
      add_manifest_edge sc lib (code_name dep) (dependency_scope dep) pkg.manifest_path
        (via_manifest dep) in
    elim (path_target meta sc dep) [
      | none ↦ named
      | some target ↦
          add_manifest_edge named lib target (dependency_scope dep) pkg.manifest_path
            (via_manifest dep)
    ]

unfoldable pub add_dependencies : Metadata → Package → Scanner → List Dependency → Scanner
unfolding add_dependency
add_dependencies meta pkg sc [] = sc
add_dependencies meta pkg sc (dep ∷ deps) =
    add_dependencies meta pkg (add_dependency meta pkg sc dep) deps

unfoldable pub add_workspace_crates : Scanner → List Package → Scanner
unfolding add_workspace_crate lib_name
add_workspace_crates sc [] = sc
add_workspace_crates sc (pkg ∷ packages) =
    add_workspace_crates (add_workspace_crate sc (lib_name pkg)) packages

module _ ⦃sources : Sources⦄ (fuel : ℕ) where
  -- The loop over the targets of a package, in `build_model`: each root once.
  unfoldable pub add_targets :
      String → List String → List String → Scanner → List Target → Fueled String Scanner
  unfolding add_target root_module target_scope
  add_targets lib known seen sc [] = some (ok sc)
  add_targets lib known seen sc (target ∷ targets) =
      let root = root_module target lib in
      elim (contains root seen) [
        | true ↦ add_targets lib known seen sc targets
        | false ↦
            and_run (add_target fuel sc root target.src_path (target_scope target) known)
              (λ sc'. add_targets lib known (root ∷ seen) sc' targets)
      ]

  unfoldable pub add_package : Metadata → Scanner → Package → Fueled String Scanner
  unfolding add_targets add_dependencies lib_name known_crates
  add_package meta sc pkg =
      and_run (add_targets (lib_name pkg) (known_crates pkg) [] sc pkg.targets)
        (λ sc'. some (ok (add_dependencies meta pkg sc' pkg.dependencies)))

  unfoldable pub add_packages : Metadata → Scanner → List Package → Fueled String Scanner
  unfolding add_package
  add_packages meta sc [] = some (ok sc)
  add_packages meta sc (pkg ∷ packages) =
      and_run (add_package meta sc pkg) (λ sc'. add_packages meta sc' packages)

  -- The scanner when `build_model` finishes it.
  unfoldable pub scan_packages : Metadata → Fueled String Scanner
  unfolding add_packages add_workspace_crates new_scanner
  scan_packages meta =
      add_packages meta (add_workspace_crates (new_scanner meta.workspace_root) meta.packages)
        meta.packages

  -- `build_model`.
  unfoldable pub build_model : Metadata → Fueled String (Model × List String)
  unfolding scan_packages finish
  build_model meta = and_run (scan_packages meta) (λ sc. some (ok (finish sc)))
