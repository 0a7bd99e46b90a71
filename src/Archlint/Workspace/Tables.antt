-- ===== src/Archlint/Workspace/Tables.antt =====
-- tools/archlint/src/workspace.rs: the table of modules that `build_model` scans.
use Prim.Native.String.{String}
use angzarr_router.Prelude.{
  and_run-eq-ok, ran, ran_equal, ℕ, ◌≡◌, subst, inl, inr, some, List, [], ◌∷◌, ok, contains, lookup,
  Bool-cases, Option-cases, arith,
}
use angzarr_router.Archlint.Syntax.{Sources}
use angzarr_router.Archlint.Scanner.{Scanner, new_scanner, add_workspace_crate, add_manifest_edge}
use angzarr_router.Archlint.Scanner.Closed.{Closed}
use angzarr_router.Archlint.Walking.{add_target}
use angzarr_router.Archlint.Walking.Keeping.{PlainNames}
use angzarr_router.Archlint.Walking.Targets.{add_target-Kept}
use angzarr_router.Archlint.Workspace.{
  Target, Dependency, Package, Metadata, root_module, target_scope, lib_name, known_crates,
  path_target, add_dependency, add_dependencies, add_workspace_crates, add_targets, add_package,
  add_packages, scan_packages,
}

abbrev Shut : Scanner → Type 0
Shut sc = Closed sc.modules

ended : (sc sc' : Scanner) → Shut sc → ran {E = String} sc ≡ ran sc' → Shut sc'
ended sc sc' shut went = subst Shut (ran_equal sc sc' went) shut

add_dependency-Shut :
    (meta : Metadata) (pkg : Package) (sc : Scanner) (dep : Dependency)
    → Shut sc
    → Shut (add_dependency meta pkg sc dep)
unfolding add_dependency add_manifest_edge
add_dependency-Shut meta pkg sc dep shut = elim (Option-cases (path_target meta sc dep)) [
  | inl inside ↦ rw (inside, add_dependency) shut
  | inr (target, outside) ↦ rw (outside, add_dependency) shut
]

add_dependencies-Shut :
    (meta : Metadata) (pkg : Package) (deps : List Dependency) (sc : Scanner)
    → Shut sc
    → Shut (add_dependencies meta pkg sc deps)
unfolding add_dependencies
add_dependencies-Shut meta pkg [] sc shut = shut
add_dependencies-Shut meta pkg (dep ∷ deps) sc shut =
    add_dependencies-Shut meta pkg deps (add_dependency meta pkg sc dep)
      (add_dependency-Shut meta pkg sc dep shut)

add_workspace_crates-Shut :
    (pkgs : List Package) (sc : Scanner) → Shut sc → Shut (add_workspace_crates sc pkgs)
unfolding add_workspace_crates add_workspace_crate
add_workspace_crates-Shut [] sc shut = shut
add_workspace_crates-Shut (pkg ∷ pkgs) sc shut =
    add_workspace_crates-Shut pkgs (add_workspace_crate sc (lib_name pkg)) shut

module _ ⦃sources : Sources⦄ (plain : PlainNames sources) (fuel : ℕ) where
  add_targets-Shut :
      (targets : List Target) (lib : String) (known seen : List String) (sc sc' : Scanner)
      → Shut sc
      → add_targets fuel lib known seen sc targets ≡ some (ok sc')
      → Shut sc'
  unfolding add_targets
  add_targets-Shut [] lib known seen sc sc' shut went = ended sc sc' shut went
  add_targets-Shut (target ∷ targets) lib known seen sc sc' shut went =
      let root = root_module target lib in
      elim (Bool-cases (contains root seen)) [
        | inl again ↦
            add_targets-Shut targets lib known seen sc sc' shut (rw (again, add_targets) at went)
        | inr fresh ↦
            let (sc1, one, rest) =
              and_run-eq-ok (add_target fuel sc root target.src_path (target_scope target) known)
                (λ sc1. add_targets fuel lib known (root ∷ seen) sc1 targets)
                (rw (fresh, add_targets) at went) in
            add_targets-Shut targets lib known (root ∷ seen) sc1 sc'
              (add_target-Kept plain root fuel sc sc1 target.src_path (target_scope target) known
                shut one).closed
              rest
      ]

  add_package-Shut :
      (meta : Metadata) (pkg : Package) (sc sc' : Scanner)
      → Shut sc
      → add_package fuel meta sc pkg ≡ some (ok sc')
      → Shut sc'
  unfolding add_package
  add_package-Shut meta pkg sc sc' shut went =
      let (sc1, one, rest) =
        and_run-eq-ok (add_targets fuel (lib_name pkg) (known_crates pkg) [] sc pkg.targets)
          (λ sc1. ran (add_dependencies meta pkg sc1 pkg.dependencies)) went in
      let scanned =
        add_targets-Shut pkg.targets (lib_name pkg) (known_crates pkg) [] sc sc1 shut one in
      ended (add_dependencies meta pkg sc1 pkg.dependencies) sc'
        (add_dependencies-Shut meta pkg pkg.dependencies sc1 scanned) rest

  add_packages-Shut :
      (meta : Metadata) (pkgs : List Package) (sc sc' : Scanner)
      → Shut sc
      → add_packages fuel meta sc pkgs ≡ some (ok sc')
      → Shut sc'
  unfolding add_packages
  add_packages-Shut meta [] sc sc' shut went = ended sc sc' shut went
  add_packages-Shut meta (pkg ∷ pkgs) sc sc' shut went =
      let (sc1, one, rest) =
        and_run-eq-ok (add_package fuel meta sc pkg) (λ sc1. add_packages fuel meta sc1 pkgs)
          went in
      add_packages-Shut meta pkgs sc1 sc' (add_package-Shut meta pkg sc sc1 shut one) rest

  -- Where the parser gives modules names without a ':', a scan of the packages that answers a scanner
  -- leaves a closed table of modules: the root, the parent and each child that a module's entry names
  -- are modules of the table too.
  pub scan_packages-Closed :
      (meta : Metadata) (sc : Scanner) → scan_packages fuel meta ≡ some (ok sc) → Closed sc.modules
  unfolding scan_packages new_scanner lookup
  scan_packages-Closed meta sc went =
      add_packages-Shut meta meta.packages _ sc
        (add_workspace_crates-Shut meta.packages (new_scanner meta.workspace_root)
          (record { sound = λ name info found. absurd (ground arith) }))
        went
