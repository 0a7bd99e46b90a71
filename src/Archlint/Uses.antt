-- ===== src/Archlint/Uses.antt =====
-- tools/archlint/src/scan.rs: the leaves of a `use` item.
pub mod Imports
use Prim.Native.String.{String}
use text.Mathlib.Text.{◌==◌}
use angzarr_router.Prelude.{
  Bool, true, false, Option, none, some, List, [], ◌∷◌, ◌++◌, last, if◌then◌else◌,
}

-- `syn::UseTree`, by its variants; idents are texts.
mutual
  pub data UseTree : Type 0 where
    path : String → UseTree → UseTree
    name : String → UseTree
    rename : String → String → UseTree
    glob : UseTree
    group : UseTrees → UseTree

  pub data UseTrees : Type 0 where
    end : UseTrees
    item : UseTree → UseTrees → UseTrees

-- A leaf: its path, and the name that it imports.
abbrev pub Leaf : Type 0
Leaf = List String × Option String

-- The name behind `as`.
abbrev pub renamed : String → Option String
renamed r = if r == "_" then none else some r

-- `flatten_use`: the leaves behind those that are there.
unfoldable mutual
  pub flatten_use : UseTree → List String → List Leaf → List Leaf
  flatten_use (UseTree.path ident tree) prefix out = flatten_use tree (prefix ++ ident ∷ []) out
  flatten_use (UseTree.name ident) prefix out =
      if ident == "self"
      then out ++ (prefix, last prefix) ∷ []
      else out ++ (prefix ++ ident ∷ [], some ident) ∷ []
  flatten_use (UseTree.rename ident r) prefix out =
      let leaf = if ident == "self" then prefix else prefix ++ ident ∷ [] in
      out ++ (leaf, renamed r) ∷ []
  flatten_use UseTree.glob prefix out = out ++ (prefix, none) ∷ []
  flatten_use (UseTree.group trees) prefix out = flatten_uses trees prefix out

  pub flatten_uses : UseTrees → List String → List Leaf → List Leaf
  flatten_uses UseTrees.end prefix out = out
  flatten_uses (UseTrees.item tree trees) prefix out =
      flatten_uses trees prefix (flatten_use tree prefix out)
