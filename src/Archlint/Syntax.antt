-- ===== src/Archlint/Syntax.antt =====
-- tools/archlint/src/scan.rs: what the scanner reads of a parsed source file, and the tests of attributes.
-- `syn`'s syntax tree is not part of this repository: the types here have what the source reads of it,
-- and `Sources` is the disk, the parser, and Unicode's table of letters and digits.
use Prim.Native.Char.{code}
use Prim.Native.String.{String}
use text.Mathlib.Text.{◌==◌}
use angzarr_router.Prelude.{
  ℕ, Bool, false, not, ◌||◌, ◌&&◌, Option, none, some, List, [], ◌∷◌, Outcome, contains, any,
  and_then, nat_eq, if◌then◌else◌,
}
use angzarr_router.Archlint.Model.{FilePath}
use angzarr_router.Archlint.Globs.{onto_first, non_empty}
use angzarr_router.Archlint.Uses.{UseTree}

-- `syn::Attribute`: the path's ident, the tokens of a list, and the text of a name and value.
pub record Attribute : Type 0 where
  pub ident : Option String
  pub tokens : Option String
  pub value : Option String

-- What `syn::visit` calls on the visitor for an item, in its order: each callback, with the calls that
-- the default traversal makes below it.
mutual
  pub data Visit : Type 0 where
    path : List String → Bool → ℕ → Visits → Visit
    item : List Attribute → Visits → Visit
    impl_item : List Attribute → Visits → Visit
    use_item : UseTree → Bool → ℕ → Visit
    mod_item : Visit
    macro_call : String → Option String → ℕ → Visits → Visits → Visit

  pub data Visits : Type 0 where
    end : Visits
    call : Visit → Visits → Visits

-- `syn::Item`, as `walk_items` and `walk_mod` match it.
mutual
  pub data Item : Type 0 where
    mod_item : List Attribute → String → ModBody → Item
    use_item : List Attribute → UseTree → Bool → ℕ → Item
    other : List Attribute → Visits → Item

  pub data ModBody : Type 0 where
    inline : Items → ModBody
    in_file : ModBody

  pub data Items : Type 0 where
    end : Items
    item : Item → Items → Items

pub record Sources : Type 0 where
  pub read : FilePath → Option String
  pub exists : FilePath → Bool
  pub parse_file : String → Outcome String Items
  pub is_alphanumeric : ℕ → Bool

-- `item_attrs`.
unfoldable pub item_attrs : Item → List Attribute
item_attrs (Item.mod_item attrs name body) = attrs
item_attrs (Item.use_item attrs tree leading_colon line) = attrs
item_attrs (Item.other attrs visits) = attrs

-- The pieces of `str::split` at the chars that a test takes.
unfoldable pub pieces_at : (ℕ → Bool) → String → List String
pieces_at separates String.[] = "" ∷ []
pieces_at separates (String.◌∷◌ c s) =
    let rest = pieces_at separates s in if separates (code c) then "" ∷ rest else onto_first c rest

abbrev pub is_ident : Option String → String → Bool
is_ident none ident = false
is_ident (some i) ident = i == ident

module _ ⦃sources : Sources⦄ where
  -- The words of a `cfg`'s tokens, in `is_cfg_test`.
  unfoldable pub words : String → List String
  unfolding pieces_at
  words text = non_empty (pieces_at (λ c. not (sources.is_alphanumeric c || nat_eq c b'_')) text)

  abbrev gates_on_test : Option String → Bool
  gates_on_test none = false
  gates_on_test (some text) = contains "test" (words text) && not (contains "not" (words text))

  -- `is_cfg_test`.
  unfoldable pub is_cfg_test : List Attribute → Bool
  unfolding words
  is_cfg_test attrs = any (λ a. is_ident a.ident "cfg" && gates_on_test a.tokens) attrs

-- `Iterator::find`.
abbrev pub find {ℓ} : {A : Type ℓ} → (A → Bool) → List A → Option A
find chosen [] = none
find chosen (x ∷ xs) = if chosen x then some x else find chosen xs

-- `path_attr`.
unfoldable pub path_attr : List Attribute → Option String
path_attr attrs = and_then (find (λ a. is_ident a.ident "path") attrs) (λ a. a.value)
