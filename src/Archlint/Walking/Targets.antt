-- ===== src/Archlint/Walking/Targets.antt =====
-- tools/archlint/src/scan.rs: `walk_file` and `add_target`, on the table of modules.
use Prim.Native.String.{String}
use angzarr_router.Prelude.{
  ℕ, zero, suc, ◌≡◌, refl, inl, inr, some, List, Outcome, ok, err, panicked, Option-cases, subst,
  insert_ordered, arith,
}
use angzarr_router.Archlint.Model.{Scope, FilePath}
use angzarr_router.Archlint.FilePaths.{parent_dir}
use angzarr_router.Archlint.Syntax.{Items, Sources}
use angzarr_router.Archlint.Scanner.{Ctx, Scanner, register}
use angzarr_router.Archlint.Scanner.Closed.{Registered, Closed, Placed, Kept, Kept-trans}
use angzarr_router.Archlint.Scanner.Registering.{register-Registered, register-Kept}
use angzarr_router.Archlint.Walking.{walk_parsed, walk_file, add_target}
use angzarr_router.Archlint.Walking.Keeping.{
  PlainItems, PlainNames, LoadKeeps, register-Ready, walk_items-Kept,
}

root_entered :
    (sc : Scanner) (root : String) (ctx : Ctx)
    → Closed sc.modules
    → Placed sc.modules root ctx.module_name
    → Registered (register sc root ctx).modules root
root_entered sc root ctx closed (inl same) =
    subst (Registered (register sc root ctx).modules) same (register-Registered sc root ctx)
root_entered sc root ctx closed (inr (parent, c, split, above, there)) =
    (register-Kept sc root ctx closed (inr (parent, c, split, above, there))).grows root there

module _ ⦃sources : Sources⦄ (plain : PlainNames sources) (root : String) where
  walk_parsed-Kept :
      (fuel : ℕ) (parsed : Outcome String Items) (ctx : Ctx) (sc sc' : Scanner)
      → LoadKeeps (walk_file fuel root) root
      → ((items : Items) → parsed ≡ ok items → PlainItems items)
      → Closed sc.modules
      → Placed sc.modules root ctx.module_name
      → walk_parsed (walk_file fuel root) root ctx parsed sc ≡ some (ok sc')
      → Kept sc.modules sc'.modules
  walk_parsed-Kept fuel (ok items) ctx sc sc' deeper names closed placed went =
      let entered = register-Kept sc root ctx closed placed in
      Kept-trans sc.modules (register sc root ctx).modules sc'.modules entered (
        walk_items-Kept (walk_file fuel root) root deeper items ctx (register sc root ctx) sc'
          (names items refl)
          (register-Ready (walk_file fuel root) root deeper sc ctx closed placed
            (root_entered sc root ctx closed placed))
          went)
  walk_parsed-Kept fuel (err e) ctx sc sc' deeper names closed placed went = cc
  walk_parsed-Kept fuel panicked ctx sc sc' deeper names closed placed went = cc

  pub walk_file-LoadKeeps : (fuel : ℕ) → LoadKeeps (walk_file fuel root) root
  unfolding walk_file
  walk_file-LoadKeeps zero = record { keeps = λ sc sc' ctx closed placed went. cc }
  walk_file-LoadKeeps (suc fuel) = record {
    keeps = λ sc sc' ctx closed placed went. elim (Option-cases (sources.read ctx.file)) [
      | inl missing ↦ absurd (ground arith)
      | inr (text, found) ↦
          walk_parsed-Kept fuel (sources.parse_file text) ctx sc sc' (walk_file-LoadKeeps fuel)
            (plain.parsed text) closed placed (rw (found, walk_file) at went)
    ];
  }

  pub add_target-Kept :
      (fuel : ℕ) (sc sc' : Scanner) (src : FilePath) (scope : Scope) (known : List String)
      → Closed sc.modules
      → add_target fuel sc root src scope known ≡ some (ok sc')
      → Kept sc.modules sc'.modules
  unfolding add_target
  add_target-Kept fuel sc sc' src scope known closed went =
      (walk_file-LoadKeeps fuel).keeps (record sc { known = insert_ordered root known sc.known })
        sc' (record { module_name = root; file = src; child_dir = parent_dir src; scope = scope })
        closed (inl refl) went
