-- ===== src/Archlint/Scanner/Importing.antt =====
-- tools/archlint/src/scan.rs: `Scanner::record_use`, on the table of modules.
use Prim.Native.String.{String}
use angzarr_router.Prelude.{
  ℕ, inl, inr, Bool, Option, none, some, List, [], ◌∷◌, Dict, lookup, insert_ordered, Option-cases,
}
use angzarr_router.Archlint.Model.{Scope}
use angzarr_router.Archlint.Uses.{UseTree, Leaf, flatten_use}
use angzarr_router.Archlint.Scanner.{ModuleInfo, Ctx, Scanner, add_alias, record_leaves, record_use}
use angzarr_router.Archlint.Scanner.Closed.{
  Closed, Kept, Kept-refl, Kept-trans, insert-Grows, insert-Closed,
}

-- An alias is no root, no parent and no child.
add_alias-Kept :
    (modules : Dict ModuleInfo) (name : String) (alias : Option String) (segs : List String)
    → Closed modules
    → Kept modules (add_alias modules name alias segs)
add_alias-Kept modules name none segs closed = Kept-refl modules closed
add_alias-Kept modules name (some alias) segs closed = elim (Option-cases (lookup name modules)) [
  | inl missing ↦ rw (missing, add_alias) (Kept-refl modules closed)
  | inr (info, found) ↦
      let named = record info { aliases = insert_ordered alias segs info.aliases } in
      let sound = closed.sound name info found in
      let more = insert-Grows modules name named in
      rw (found, add_alias)
        (record {
          grows = more;
          closed = insert-Closed modules name named closed (record {
            root = more info.root sound.root;
            parent = more _ sound.parent;
            children = λ c m. more _ (sound.children c m);
          });
        })
]

module _ (ctx : Ctx) (scope : Scope) (leading_colon : Bool) (line : ℕ) where
  record_leaves-Kept :
      (leaves : List Leaf) (sc : Scanner)
      → Closed sc.modules
      → Kept sc.modules (record_leaves sc ctx scope leading_colon line leaves).modules
  unfolding record_leaves
  record_leaves-Kept [] sc closed = Kept-refl sc.modules closed
  record_leaves-Kept ((segs, alias) ∷ leaves) sc closed =
      let one = add_alias-Kept sc.modules ctx.module_name alias segs closed in
      Kept-trans sc.modules (add_alias sc.modules ctx.module_name alias segs) _ one
        (record_leaves-Kept leaves _ one.closed)

pub record_use-Kept :
    (sc : Scanner) (ctx : Ctx) (tree : UseTree) (leading_colon : Bool) (line : ℕ) (scope : Scope)
    → Closed sc.modules
    → Kept sc.modules (record_use sc ctx tree leading_colon line scope).modules
unfolding record_use
record_use-Kept sc ctx tree leading_colon line scope closed =
    record_leaves-Kept ctx scope leading_colon line (flatten_use tree [] []) sc closed
