-- ===== src/Examples/ArchlintWorld.antt =====
-- A workspace of one crate for archlint: `app`, whose module `a` stands in a file of its own and uses the
-- module `b`, which stands in the root.
use Prim.Native.String.{String}
use text.Mathlib.Text.{◌==◌}
use angzarr_router.Prelude.{
  ℕ, ◌≡◌, refl, ◌<◌, inl, inr, true, false, Option, none, some, [], ◌∷◌, Outcome, ok, err,
  Bool-cases, arith, if◌then◌else◌, ltb, eq_iff, subst,
}
use angzarr_router.Archlint.Model.{Component, FilePath}
use angzarr_router.Archlint.FilePaths.{components, display_path, join_path, parent_dir, normalise}
use angzarr_router.Archlint.Uses.{UseTree}
use angzarr_router.Archlint.Syntax.{Attribute, Item, ModBody, Items, Sources}
use angzarr_router.Archlint.Scanner.{Ctx}
use angzarr_router.Archlint.Rules.{RulesFile, ScopeSel}
use angzarr_router.Archlint.Walking.Keeping.{PlainItems, PlainNames}
use angzarr_router.Archlint.Walking.Ending.{ItemsBelow, Ranked}
use angzarr_router.Archlint.Workspace.{Package, Metadata}
use angzarr_router.Archlint.Running.{Machine}
use angzarr_router.Examples.Linter.{linter}

abbrev pub at_a : Attribute
at_a = record { ident = some "path"; tokens = none; value = some "/w/src/a.rs" }

abbrev pub root_items : Items
root_items =
    Items.item (Item.mod_item (at_a ∷ []) "a" ModBody.in_file)
      (Items.item (Item.mod_item [] "b" (ModBody.inline Items.end)) Items.end)

abbrev pub a_items : Items
a_items =
    Items.item
      (Item.use_item [] (UseTree.path "crate" (UseTree.path "b" (UseTree.name "Thing"))) false 3)
      Items.end

abbrev pub read_at : String → Option String
read_at path =
    if path == "/w/src/lib.rs"
    then some "root"
    else if path == "/w/src/a.rs"
    then some "a"
    else none

abbrev pub parse_at : String → Outcome String Items
parse_at text =
    if text == "root" then ok root_items else if text == "a" then ok a_items else err "no items"

instance unfoldable pub disk : Sources
unfolding display_path
disk = record {
  read = λ path. read_at (display_path path);
  exists = λ path. false;
  parse_file = parse_at;
  is_alphanumeric = λ c. ltb 64 c;
}

unfoldable pub app : Package
unfolding components
app = record {
  name = "app";
  manifest_path = components "/w/Cargo.toml";
  targets = record { name = "app"; kind = "lib" ∷ []; src_path = components "/w/src/lib.rs" } ∷ [];
  dependencies = record { name = "tokio"; rename = none; kind = some "dev"; path = none } ∷ [];
}

unfoldable pub meta : Metadata
unfolding components app
meta = record { packages = app ∷ []; workspace_root = components "/w" }

abbrev pub rules_of : String → RulesFile
rules_of denied = record {
  rules =
      record {
        name = "layers";
        why = "a stands above b";
        from = "app::a" ∷ [];
        scope = ScopeSel.lib;
        allow = none;
        deny = denied ∷ [];
      }
      ∷ [];
}

-- A machine that answers the workspace, and a rules file of one rule.
abbrev pub machine : String → Machine
machine denied = record {
  metadata = λ manifest. ok meta;
  read_rules = λ path. ok "rules";
  parse_toml = λ text. ok (rules_of denied);
}

parse_at-PlainItems : (text : String) (items : Items) → parse_at text ≡ ok items → PlainItems items
unfolding PlainItems
parse_at-PlainItems text items parsed = elim (Bool-cases (text == "root")) [
  | inl root ↦
      let is : root_items ≡ items = ground arith in
      subst PlainItems is (((refl, tt), tt), (((refl, tt), tt), tt))
  | inr other ↦ elim (Bool-cases (text == "a")) [
    | inl a ↦ let is : a_items ≡ items = ground arith in subst PlainItems is (tt, tt)
    | inr nothing ↦ absurd (ground arith)
  ]
]

pub disk-PlainNames : PlainNames disk
unfolding disk
disk-PlainNames = record { parsed = parse_at-PlainItems }

-- The root stands above the file that it leads to.
abbrev pub rank : FilePath → FilePath → ℕ
rank file child_dir = if display_path file == "/w/src/lib.rs" then 1 else 0

join_path_of_root :
    (dir rest : FilePath) → join_path dir (Component.root_dir ∷ rest) ≡ Component.root_dir ∷ rest
unfolding join_path
join_path_of_root [] rest = refl
join_path_of_root (c ∷ dir) rest = refl

abbrev a_rs : FilePath
a_rs =
    Component.root_dir
    ∷ Component.normal "w"
    ∷ Component.normal "src"
    ∷ Component.normal "a.rs"
    ∷ []

a_rs-below : (r : ℕ) → 0 < r → rank (normalise a_rs) (parent_dir a_rs) < r
unfolding linter
a_rs-below r above = above

root_items-Below : (r : ℕ) (ctx : Ctx) → 0 < r → ItemsBelow rank r ctx root_items
unfolding ItemsBelow
root_items-Below r ctx above =
    (rw (join_path_of_root (parent_dir ctx.file)) (a_rs-below r above), (tt, tt))

a_items-Below : (r : ℕ) (ctx : Ctx) → ItemsBelow rank r ctx a_items
unfolding ItemsBelow
a_items-Below r ctx = (tt, tt)

lib_above :
    (file : FilePath) (text : String)
    → read_at (display_path file) ≡ some text
    → (text == "root") ≡ true
    → 0 < rank file []
lib_above file text found is = elim (Bool-cases (display_path file == "/w/src/lib.rs")) [
  | inl root ↦ rw root (omega arith)
  | inr other ↦
      let at_root = (eq_iff text "root").0 is in
      absurd (ground (arith, eq_iff "a" "root", eq_iff text "root"))
]

items_Below :
    (r : ℕ) (ctx : Ctx) (text : String) (items : Items)
    → ((text == "root") ≡ true → 0 < r)
    → parse_at text ≡ ok items
    → ItemsBelow rank r ctx items
items_Below r ctx text items above parsed = elim (Bool-cases (text == "root")) [
  | inl root ↦
      let is : root_items ≡ items = ground arith in
      subst (ItemsBelow rank r ctx) is (root_items-Below r ctx (above root))
  | inr other ↦ elim (Bool-cases (text == "a")) [
    | inl a ↦
        let is : a_items ≡ items = ground arith in
        subst (ItemsBelow rank r ctx) is (a_items-Below r ctx)
    | inr nothing ↦ absurd (ground arith)
  ]
]

pub disk-Ranked : Ranked rank
unfolding disk
disk-Ranked = record {
  descends = λ ctx text items found parsed.
      items_Below (rank ctx.file ctx.child_dir) ctx text items (lib_above ctx.file text found)
        parsed;
}
