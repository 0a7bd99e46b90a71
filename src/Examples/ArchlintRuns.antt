-- ===== src/Examples/ArchlintRuns.antt =====
-- Runs of archlint on the workspace of one crate.
use Prim.Native.String.{String}
use angzarr_router.Prelude.{
  ℕ, ◌≡◌, ◌↔◌, ◌⊎◌, inl, inr, refl, true, false, Option, none, some, [], ◌∷◌, Outcome, ok, err,
  panicked, Member, arith,
}
use angzarr_router.Archlint.Model.{Component, FilePath, Scope, Edge, Model}
use angzarr_router.Archlint.FilePaths.{components, normalise}
use angzarr_router.Archlint.FilePaths.Normal.{IsNormal, normalise-IsNormal}
use angzarr_router.Archlint.Globs.{matches, split}
use angzarr_router.Archlint.Globs.Paths.{Fits, matches_iff}
use angzarr_router.Archlint.Globs.Splitting.{joined, split-joined}
use angzarr_router.Archlint.Uses.{UseTree, UseTrees, flatten_use}
use angzarr_router.Archlint.Uses.Imports.{Imports, flatten_use_iff}
use angzarr_router.Archlint.Scanner.{RawRef, Scanner}
use angzarr_router.Archlint.Scanner.Closed.{Closed}
use angzarr_router.Archlint.Rules.{Rule, RulesFile, ScopeSel, parse, check}
use angzarr_router.Archlint.Rules.Checking.{IsViolation, check_iff}
use angzarr_router.Archlint.Rules.Files.{AllConstrain, parse_iff}
use angzarr_router.Archlint.Finishing.{finish}
use angzarr_router.Archlint.Finishing.Edges.{MadeByOne, finish_edges_iff}
use angzarr_router.Archlint.Syntax.{Attribute, Item, ModBody, Items, is_cfg_test}
use angzarr_router.Archlint.Scanner.{Ctx, register, record_use}
use angzarr_router.Archlint.Walking.Testing.{OnlyTests, walk_item-OnlyTests}
use angzarr_router.Archlint.Workspace.{scan_packages, build_model}
use angzarr_router.Archlint.Workspace.Tables.{scan_packages-Closed}
use angzarr_router.Archlint.Workspace.Ending.{scan_packages-Ends}
use angzarr_router.Archlint.Workspace.Edges.{Crosses, scan_packages-edges}
use angzarr_router.Archlint.Running.{Args, Report, parse_args, load, run, exit_code}
use angzarr_router.Archlint.Running.Exiting.{Statuses, run-Statuses}
use angzarr_router.Examples.Linter.{linter}
use angzarr_router.Examples.ArchlintWorld.{
  disk, app, meta, machine, rules_of, rank, disk-PlainNames, disk-Ranked,
}

abbrev status : Option Report → Option ℕ
status none = none
status (some report) = some (exit_code report.result)

-- The edge from `a` to `b`, and the table and the refs that it comes from.
abbrev a_to_b : Edge
a_to_b = record {
  from = "app::a";
  to = "app::b";
  scope = Scope.lib;
  file = Component.normal "src" ∷ Component.normal "a.rs" ∷ [];
  line = 3;
  via = "crate::b::Thing";
}

abbrev to_tokio : Edge
to_tokio = record {
  from = "app";
  to = "tokio";
  scope = Scope.test;
  file = Component.normal "Cargo.toml" ∷ [];
  line = 0;
  via = "[dev-dependencies] tokio";
}

abbrev app_model : Model
app_model = record {
  modules =
      ("app", Component.normal "src" ∷ Component.normal "lib.rs" ∷ [])
      ∷ ("app::a", Component.normal "src" ∷ Component.normal "a.rs" ∷ [])
      ∷ ("app::b", Component.normal "src" ∷ Component.normal "lib.rs" ∷ [])
      ∷ [];
  workspace_crates = "app" ∷ [];
  edges = to_tokio ∷ a_to_b ∷ [];
}

built_model : build_model 2 meta ≡ some (ok (app_model, []))
unfolding linter disk meta app
built_model = refl

-- The run finds the edge that the rule denies, none where it denies another, and refuses a wrong command
-- line.
exits_one : status (run (machine "app::b") 2 []) ≡ some 1
unfolding linter disk meta app
exits_one = refl

exits_zero : status (run (machine "app::c") 2 ("--rules" ∷ "layers.toml" ∷ [])) ≡ some 0
unfolding linter disk meta app
exits_zero = refl

exits_two : status (run (machine "app::b") 2 ("--rule" ∷ [])) ≡ some 2
unfolding linter
exits_two = refl

abbrev at_src : String → FilePath
at_src name =
    Component.root_dir ∷ Component.normal "w" ∷ Component.normal "src" ∷ Component.normal name ∷ []

abbrev use_b : RawRef
use_b = record {
  module_name = "app::a";
  scope = Scope.lib;
  segs = "crate" ∷ "b" ∷ "Thing" ∷ [];
  leading_colon = false;
  file = at_src "a.rs";
  line = 3;
}

abbrev app_scanner : Scanner
app_scanner = record {
  workspace_root = Component.root_dir ∷ Component.normal "w" ∷ [];
  modules =
      (
        "app",
        record { file = at_src "lib.rs"; root = "app"; children = "b" ∷ "a" ∷ []; aliases = [] },
      )
      ∷ (
        "app::a",
        record {
          file = at_src "a.rs";
          root = "app";
          children = [];
          aliases = ("Thing", "crate" ∷ "b" ∷ "Thing" ∷ []) ∷ [];
        },
      )
      ∷ ("app::b", record { file = at_src "lib.rs"; root = "app"; children = []; aliases = [] })
      ∷ [];
  known = ("app", "app" ∷ "alloc" ∷ "core" ∷ "std" ∷ "tokio" ∷ []) ∷ [];
  workspace_crates = "app" ∷ [];
  refs = use_b ∷ [];
  edges = to_tokio ∷ [];
  warnings = [];
}

scanned : scan_packages 2 meta ≡ some (ok app_scanner)
unfolding linter disk meta app
scanned = refl

edge_in_model : Member a_to_b (finish app_scanner).0.edges
unfolding linter
edge_in_model = inr (inl refl)

scan_packages-Closed_example : Closed app_scanner.modules
scan_packages-Closed_example = scan_packages-Closed disk-PlainNames 2 meta app_scanner scanned

scan_packages-Ends_example :
    ((sc : Scanner) × (scan_packages 2 meta ≡ some (ok sc)))
    ⊎ ((e : String) × (scan_packages 2 meta ≡ some (err e)))
    ⊎ ((text : String) × (disk.parse_file text ≡ panicked))
unfolding meta app linter
scan_packages-Ends_example = scan_packages-Ends rank disk-Ranked 2 meta ((omega arith, tt), tt)

scan_packages-edges_example :
    Member a_to_b app_scanner.edges ⊎ ((r : RawRef) × Crosses app_scanner a_to_b r)
scan_packages-edges_example =
    scan_packages-edges disk-PlainNames 2 meta app_scanner a_to_b scanned edge_in_model

finish_edges_iff_example :
    Member a_to_b (finish app_scanner).0.edges
    ↔ (Member a_to_b app_scanner.edges ⊎ MadeByOne app_scanner a_to_b app_scanner.refs)
finish_edges_iff_example = finish_edges_iff app_scanner a_to_b

abbrev check_args : Args
check_args = record {
  rules = Component.normal "archlint.toml" ∷ [];
  manifest = Component.normal "Cargo.toml" ∷ [];
  edges = false;
}

run-Statuses_example :
    (report : Report) × (run (machine "app::b") 2 [] ≡ some report)
    × Statuses (exit_code report.result) (load (machine "app::b") check_args.rules) app_model
unfolding linter
run-Statuses_example =
    run-Statuses (machine "app::b") 2 [] check_args meta app_model [] refl refl refl built_model

abbrev denied : Rule
denied = record {
  name = "layers";
  why = "a stands above b";
  from = "app::*" ∷ [];
  scope = ScopeSel.all;
  allow = some ("self::**" ∷ []);
  deny = [];
}

check_iff_example :
    Member
      (record { rule = denied; edge = a_to_b })
      (check (record { rules = denied ∷ [] }) app_model)
    ↔ IsViolation (denied ∷ []) app_model.edges app_model (record { rule = denied; edge = a_to_b })
check_iff_example =
    check_iff (record { rules = denied ∷ [] }) app_model (record { rule = denied; edge = a_to_b })

abbrev from_toml : Outcome String RulesFile
from_toml = ok (rules_of "app::b")

parse_iff_example :
    (parse from_toml ≡ ok (rules_of "app::b"))
    ↔ ((from_toml ≡ ok (rules_of "app::b")) × AllConstrain (rules_of "app::b").rules)
parse_iff_example = parse_iff from_toml (rules_of "app::b")

matches_iff_example :
    (matches "app::**::*_lem" "app::a::sum_lem" ≡ true) ↔ Fits "app::**::*_lem" "app::a::sum_lem"
matches_iff_example = matches_iff "app::**::*_lem" "app::a::sum_lem"

matches_run : matches "app::**::*_lem" "app::a::sum_lem" ≡ true
unfolding linter
matches_run = refl

split-joined_example :
    split (joined "" ("app" ∷ "a" ∷ "" ∷ "b" ∷ "" ∷ [])) "::" ≡ "app" ∷ "a" ∷ "b" ∷ []
split-joined_example =
    split-joined "" ("app" ∷ "a" ∷ "" ∷ "b" ∷ "" ∷ [])
      (tt, ((refl, (refl, (refl, tt))), ((refl, tt), (tt, ((refl, tt), (tt, tt))))))

normalise-IsNormal_example :
    IsNormal (normalise (components "/w/src/../x/./y.rs"))
    × (normalise (normalise (components "/w/src/../x/./y.rs"))
        ≡ normalise (components "/w/src/../x/./y.rs"))
normalise-IsNormal_example = normalise-IsNormal (components "/w/src/../x/./y.rs")

abbrev tree : UseTree
tree = UseTree.path "crate" (
    UseTree.group
      (UseTrees.item (UseTree.name "self") (UseTrees.item (UseTree.rename "b" "_") UseTrees.end)))

flatten_use_iff_example :
    Member ("crate" ∷ "b" ∷ [], none) (flatten_use tree [] [])
    ↔ Imports tree [] ("crate" ∷ "b" ∷ [], none)
flatten_use_iff_example = flatten_use_iff tree ("crate" ∷ "b" ∷ [], none)

abbrev gated_on : String → Attribute
gated_on tokens = record { ident = some "cfg"; tokens = some tokens; value = none }

test_gates : is_cfg_test (gated_on "all (test , unix)" ∷ []) ≡ true
unfolding linter disk
test_gates = refl

not_test_gates_not : is_cfg_test (gated_on "not (test)" ∷ []) ≡ false
unfolding linter disk
not_test_gates_not = refl

-- `#[cfg(test)] mod tests { use super::b; }` in the root.
abbrev use_super : UseTree
use_super = UseTree.path "super" (UseTree.name "b")

abbrev tests_mod : Item
tests_mod =
    Item.mod_item (gated_on "test" ∷ []) "tests"
      (ModBody.inline (Items.item (Item.use_item [] use_super false 9) Items.end))

abbrev root_ctx : Ctx
root_ctx = record { module_name = "app"; file = at_src "lib.rs"; child_dir = []; scope = Scope.lib }

abbrev tests_ctx : Ctx
tests_ctx = record {
  module_name = "app::tests";
  file = at_src "lib.rs";
  child_dir = Component.normal "tests" ∷ [];
  scope = Scope.test;
}

abbrev tested : Scanner
tested = record_use (register app_scanner "app" tests_ctx) tests_ctx use_super false 9 Scope.test

walk_item-OnlyTests_example : OnlyTests app_scanner tested
unfolding linter disk
walk_item-OnlyTests_example =
    walk_item-OnlyTests "app" 1 root_ctx tests_mod app_scanner tested (inl refl) refl

-- A crate whose name is `path` reads as a path on disk.
crate_named_path : matches "**" "path::buf" ≡ false
unfolding linter
crate_named_path = refl

both_paths :
    parse_args ("--manifest-path" ∷ "w/Cargo.toml" ∷ "--edges" ∷ [])
    ≡ ok (record check_args {
      manifest = Component.normal "w" ∷ Component.normal "Cargo.toml" ∷ [];
      edges = true;
    })
unfolding linter
both_paths = refl
