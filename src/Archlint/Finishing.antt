-- ===== src/Archlint/Finishing.antt =====
-- tools/archlint/src/scan.rs: `Scanner::finish`, which resolves the references and puts the edges in order.
pub mod Comparing
pub mod Edges
use Prim.Native.Nat.{Ordering, compare as compare_nat}
use Prim.Native.String.{String, compare}
use text.Mathlib.Text.{◌==◌}
use angzarr_router.Prelude.{
  ℕ, Bool, true, false, Option, none, some, List, [], ◌∷◌, ◌++◌, Dict, lookup, if◌then◌else◌,
}
use angzarr_router.Archlint.Model.{Component, FilePath, Scope, Edge, Model}
use angzarr_router.Archlint.FilePaths.{relative}
use angzarr_router.Archlint.Scanner.{ModuleInfo, RawRef, Scanner}
use angzarr_router.Archlint.Resolving.{join, resolve}

-- `Ord` as it is derived: the first difference decides.
abbrev pub then_by : Ordering → Ordering → Ordering
then_by Ordering.lt later = Ordering.lt
then_by Ordering.eq later = later
then_by Ordering.gt later = Ordering.gt

unfoldable pub compare_component : Component → Component → Ordering
compare_component Component.root_dir Component.root_dir = Ordering.eq
compare_component Component.root_dir _ = Ordering.lt
compare_component Component.cur_dir Component.root_dir = Ordering.gt
compare_component Component.cur_dir Component.cur_dir = Ordering.eq
compare_component Component.cur_dir _ = Ordering.lt
compare_component Component.parent_dir Component.parent_dir = Ordering.eq
compare_component Component.parent_dir (Component.normal name) = Ordering.lt
compare_component Component.parent_dir _ = Ordering.gt
compare_component (Component.normal x) (Component.normal y) = compare x y
compare_component (Component.normal x) _ = Ordering.gt

unfoldable pub compare_path : FilePath → FilePath → Ordering
unfolding compare_component
compare_path [] [] = Ordering.eq
compare_path [] (d ∷ q) = Ordering.lt
compare_path (c ∷ p) [] = Ordering.gt
compare_path (c ∷ p) (d ∷ q) = then_by (compare_component c d) (compare_path p q)

unfoldable pub compare_scope : Scope → Scope → Ordering
compare_scope Scope.lib Scope.lib = Ordering.eq
compare_scope Scope.lib Scope.test = Ordering.lt
compare_scope Scope.test Scope.lib = Ordering.gt
compare_scope Scope.test Scope.test = Ordering.eq

unfoldable pub compare_edge : Edge → Edge → Ordering
unfolding compare_path compare_scope
compare_edge e f = then_by (compare e.from f.from) (
    then_by (compare e.to f.to) (
      then_by (compare_scope e.scope f.scope) (
        then_by (compare_path e.file f.file)
          (then_by (compare_nat e.line f.line) (compare e.via f.via)))))

-- `Vec::sort`, and `Vec::dedup`.
unfoldable pub insert_edge : Edge → List Edge → List Edge
unfolding compare_edge
insert_edge e [] = e ∷ []
insert_edge e (f ∷ edges) = elim (compare_edge f e) [
  | Ordering.lt ↦ f ∷ insert_edge e edges
  | Ordering.eq ↦ e ∷ f ∷ edges
  | Ordering.gt ↦ e ∷ f ∷ edges
]

unfoldable pub sort : List Edge → List Edge
unfolding insert_edge
sort [] = []
sort (e ∷ edges) = insert_edge e (sort edges)

unfoldable pub dedup_behind : Edge → List Edge → List Edge
unfolding compare_edge
dedup_behind e [] = []
dedup_behind e (f ∷ edges) = elim (compare_edge e f) [
  | Ordering.lt ↦ f ∷ dedup_behind f edges
  | Ordering.eq ↦ dedup_behind e edges
  | Ordering.gt ↦ f ∷ dedup_behind f edges
]

unfoldable pub dedup : List Edge → List Edge
unfolding dedup_behind
dedup [] = []
dedup (e ∷ edges) = e ∷ dedup_behind e edges

abbrev pub root_of : Option ModuleInfo → String
root_of none = ""
root_of (some info) = info.root

abbrev pub via_text : List String → String
via_text [] = ""
via_text (seg ∷ segs) = join seg segs

module _ (sc : Scanner) where
  -- What a reference names, with the root of its module as its home.
  unfoldable pub target_of : RawRef → Option String
  unfolding lookup resolve
  target_of r =
      resolve sc (root_of (lookup r.module_name sc.modules)) r.module_name r.segs r.leading_colon

  abbrev pub edge_to : RawRef → String → Edge
  edge_to r to = record {
    from = r.module_name;
    to = to;
    scope = r.scope;
    file = relative sc.workspace_root r.file;
    line = r.line;
    via = via_text r.segs;
  }

  -- The loop of `Scanner::finish`: the edges of the references, in their order.
  unfoldable pub ref_edges : List RawRef → List Edge
  unfolding target_of relative join
  ref_edges [] = []
  ref_edges (r ∷ refs) =
      let rest = ref_edges refs in
      elim (target_of r) [
        | none ↦ rest
        | some to ↦ if to == r.module_name then rest else edge_to r to ∷ rest
      ]

  abbrev pub module_files : Dict ModuleInfo → Dict FilePath
  module_files [] = []
  module_files ((name, info) ∷ entries) =
      (name, relative sc.workspace_root info.file) ∷ module_files entries

  -- `Scanner::finish`: the model, and the warnings.
  unfoldable pub finish : Model × List String
  unfolding sort dedup ref_edges
  finish = (
    record {
      modules = module_files sc.modules;
      workspace_crates = sc.workspace_crates;
      edges = dedup (sort (sc.edges ++ ref_edges sc.refs));
    },
    sc.warnings,
  )
