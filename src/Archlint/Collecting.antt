-- ===== src/Archlint/Collecting.antt =====
-- tools/archlint/src/scan.rs: `Collector`, the visitor of one item. The stack of scopes is the argument
-- that each visit is made with.
pub mod Testing
use Prim.Native.String.{String}
use text.Mathlib.Text.{◌==◌}
use angzarr_router.Prelude.{
  ℕ, Bool, ◌||◌, Option, none, some, List, [], ◌∷◌, ◌++◌, length, ltb, if◌then◌else◌,
}
use angzarr_router.Archlint.Model.{Scope}
use angzarr_router.Archlint.Uses.{Leaf, flatten_use}
use angzarr_router.Archlint.Syntax.{Attribute, Visit, Visits, Sources, is_cfg_test}
use angzarr_router.Archlint.Scanner.{RawRef, Ctx}

-- What a `Collector` has collected.
pub record Collected : Type 0 where
  pub refs : List RawRef
  pub includes : List (ℕ × String)

-- `Collector::push`.
unfoldable pub push_ref : Ctx → Scope → Collected → List String → Bool → ℕ → Collected
push_ref ctx scope c segs leading_colon line = record c {
  refs =
      c.refs
      ++ record {
        module_name = ctx.module_name;
        scope = scope;
        segs = segs;
        leading_colon = leading_colon;
        file = ctx.file;
        line = line;
      }
        ∷ [];
}

unfoldable pub push_leaves : Ctx → Scope → Collected → Bool → ℕ → List Leaf → Collected
unfolding push_ref
push_leaves ctx scope c leading_colon line [] = c
push_leaves ctx scope c leading_colon line ((segs, _) ∷ leaves) =
    push_leaves ctx scope (push_ref ctx scope c segs leading_colon line) leading_colon line leaves

abbrev pub is_include : String → Bool
is_include name = name == "include" || name == "include_str" || name == "include_bytes"

abbrev pub add_include : Collected → String → Option String → ℕ → Collected
add_include c name none line = c
add_include c name (some lit) line =
    if is_include name then record c { includes = c.includes ++ (line, lit) ∷ [] } else c

module _ ⦃sources : Sources⦄ where
  -- The scope that `with_attrs` pushes.
  unfoldable pub scope_within : Scope → List Attribute → Scope
  scope_within scope attrs = if is_cfg_test attrs then Scope.test else scope

  module _ (ctx : Ctx) where
    -- The visitor's callbacks: `visit_path`, `visit_item`, `visit_impl_item`, `visit_item_use`,
    -- `visit_item_mod` and `visit_macro`.
    unfoldable mutual
      unfolding push_ref push_leaves scope_within flatten_use

      pub visit : Scope → Visit → Collected → Collected
      visit scope (Visit.path segs leading_colon line below) c = visit_all scope below (
          if ltb 1 (length segs) || leading_colon
          then push_ref ctx scope c segs leading_colon line
          else c)
      visit scope (Visit.item attrs below) c = visit_all (scope_within scope attrs) below c
      visit scope (Visit.impl_item attrs below) c = visit_all (scope_within scope attrs) below c
      visit scope (Visit.use_item tree leading_colon line) c =
          push_leaves ctx scope c leading_colon line (flatten_use tree [] [])
      visit scope Visit.mod_item c = c
      visit scope (Visit.macro_call name lit line args below) c =
          visit_all scope below (visit_all scope args (add_include c name lit line))

      pub visit_all : Scope → Visits → Collected → Collected
      visit_all scope Visits.end c = c
      visit_all scope (Visits.call v visits) c = visit_all scope visits (visit scope v c)
