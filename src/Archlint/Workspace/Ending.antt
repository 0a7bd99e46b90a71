-- ===== src/Archlint/Workspace/Ending.antt =====
-- tools/archlint/src/workspace.rs: the scan of the packages comes to an end.
use Prim.Native.String.{String}
use angzarr_router.Prelude.{
  ℕ, ◌≡◌, ◌⊎◌, refl, Fueled, panicked, err, inl, inr, ◌<◌, none, some, List, [], ◌∷◌, ok, contains,
  Bool-cases,
}
use angzarr_router.Archlint.FilePaths.{parent_dir}
use angzarr_router.Archlint.Syntax.{Sources}
use angzarr_router.Archlint.Scanner.{Scanner, new_scanner}
use angzarr_router.Archlint.Walking.{add_target}
use angzarr_router.Archlint.Walking.Ending.{Ends, Rank, Ranked, and_run-Ends, add_target-Ends}
use angzarr_router.Archlint.Workspace.{
  Target, Package, Metadata, root_module, target_scope, lib_name, known_crates, add_dependencies,
  add_workspace_crates, add_targets, add_package, add_packages, scan_packages,
}

-- More fuel than the rank of each target's root.
abbrev TargetsBelow : Rank → ℕ → List Target → Type 0
TargetsBelow rank fuel [] = Unit
TargetsBelow rank fuel (target ∷ targets) =
    (rank target.src_path (parent_dir target.src_path) < fuel) × TargetsBelow rank fuel targets

abbrev pub PackagesBelow : Rank → ℕ → List Package → Type 0
PackagesBelow rank fuel [] = Unit
PackagesBelow rank fuel (pkg ∷ pkgs) =
    TargetsBelow rank fuel pkg.targets × PackagesBelow rank fuel pkgs

module _ ⦃sources : Sources⦄ (rank : Rank) (ranked : Ranked rank) (fuel : ℕ) where
  add_targets-Ends :
      (targets : List Target) (lib : String) (known seen : List String) (sc : Scanner)
      → TargetsBelow rank fuel targets
      → Ends sources (add_targets fuel lib known seen sc targets)
  unfolding add_targets
  add_targets-Ends [] lib known seen sc below = tt
  add_targets-Ends (target ∷ targets) lib known seen sc (here, others) =
      let root = root_module target lib in
      elim (Bool-cases (contains root seen)) [
        | inl again ↦ rw (again, add_targets) (add_targets-Ends targets lib known seen sc others)
        | inr fresh ↦
            rw (fresh, add_targets)
              (and_run-Ends sources
                (add_target fuel sc root target.src_path (target_scope target) known)
                (λ sc1. add_targets fuel lib known (root ∷ seen) sc1 targets)
                (add_target-Ends rank ranked root fuel sc target.src_path (target_scope target)
                  known here)
                (λ sc1. add_targets-Ends targets lib known (root ∷ seen) sc1 others))
      ]

  add_package-Ends :
      (meta : Metadata) (pkg : Package) (sc : Scanner)
      → TargetsBelow rank fuel pkg.targets
      → Ends sources (add_package fuel meta sc pkg)
  unfolding add_package
  add_package-Ends meta pkg sc below =
      and_run-Ends sources (add_targets fuel (lib_name pkg) (known_crates pkg) [] sc pkg.targets)
        (λ sc1. some (ok (add_dependencies meta pkg sc1 pkg.dependencies)))
        (add_targets-Ends pkg.targets (lib_name pkg) (known_crates pkg) [] sc below) (λ sc1. tt)

  add_packages-Ends :
      (meta : Metadata) (pkgs : List Package) (sc : Scanner)
      → PackagesBelow rank fuel pkgs
      → Ends sources (add_packages fuel meta sc pkgs)
  unfolding add_packages
  add_packages-Ends meta [] sc below = tt
  add_packages-Ends meta (pkg ∷ pkgs) sc (here, others) =
      and_run-Ends sources (add_package fuel meta sc pkg) (λ sc1. add_packages fuel meta sc1 pkgs)
        (add_package-Ends meta pkg sc here) (λ sc1. add_packages-Ends meta pkgs sc1 others)

  comes_to :
      (call : Fueled String Scanner)
      → Ends sources call
      → ((sc : Scanner) × (call ≡ some (ok sc)))
        ⊎ ((e : String) × (call ≡ some (err e)))
        ⊎ ((text : String) × (sources.parse_file text ≡ panicked))
  comes_to none ends = absurd ends
  comes_to (some (ok sc)) ends = inl (sc, refl)
  comes_to (some (err e)) ends = inr (inl (e, refl))
  comes_to (some panicked) ends = inr (inr ends)

  -- When the files can be ranked so that each `mod` without a body leads to a lower rank, the scan of the
  -- packages comes to an end on any fuel above the ranks of the targets' roots: with a scanner or with an
  -- error, unless the parser panics on some text.
  pub scan_packages-Ends :
      (meta : Metadata)
      → PackagesBelow rank fuel meta.packages
      → ((sc : Scanner) × (scan_packages fuel meta ≡ some (ok sc)))
        ⊎ ((e : String) × (scan_packages fuel meta ≡ some (err e)))
        ⊎ ((text : String) × (sources.parse_file text ≡ panicked))
  unfolding scan_packages
  scan_packages-Ends meta below = comes_to (scan_packages fuel meta) (
      add_packages-Ends meta meta.packages
        (add_workspace_crates (new_scanner meta.workspace_root) meta.packages) below)
