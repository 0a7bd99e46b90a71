-- ===== src/Archlint/Walking/Ending.antt =====
-- tools/archlint/src/scan.rs: walks that come to an end.
use Prim.Native.String.{String}
use angzarr_router.Prelude.{
  ℕ, zero, suc, ◌≡◌, refl, inl, inr, ◌<◌, Option, none, some, List, Outcome, ok, err, panicked,
  Fueled, and_run, Option-cases, insert_ordered, arith,
}
use angzarr_router.Archlint.Model.{Scope, FilePath}
use angzarr_router.Archlint.FilePaths.{normalise, parent_dir}
use angzarr_router.Archlint.Syntax.{Attribute, Item, ModBody, Items, Sources}
use angzarr_router.Archlint.Scanner.{Ctx, Scanner, register}
use angzarr_router.Archlint.Collecting.{scope_within}
use angzarr_router.Archlint.Walking.{
  Load, module_file, child_ctx, walk_found, walk_item, walk_mod, walk_items, walk_parsed, walk_file,
  add_target,
}

module _ (sources : Sources) where
  -- A call that comes to an end: with a scanner or with an error, or it unwinds where the parser does.
  abbrev pub Ends : Fueled String Scanner → Type 0
  Ends none = ⊥
  Ends (some (ok sc)) = Unit
  Ends (some (err e)) = Unit
  Ends (some panicked) = (text : String) × (sources.parse_file text ≡ panicked)

  pub and_run-Ends :
      (call : Fueled String Scanner) (next : Scanner → Fueled String Scanner)
      → Ends call
      → ((sc : Scanner) → Ends (next sc))
      → Ends (and_run call next)
  and_run-Ends none next ends goes = absurd ends
  and_run-Ends (some (ok sc)) next ends goes = goes sc
  and_run-Ends (some (err e)) next ends goes = tt
  and_run-Ends (some panicked) next ends goes = ends

abbrev pub Rank : Type 0
Rank = FilePath → FilePath → ℕ

module _ ⦃sources : Sources⦄ (rank : Rank) where
  abbrev FoundBelow : ℕ → Option (FilePath × FilePath) → Type 0
  FoundBelow r none = Unit
  FoundBelow r (some (file, child_dir)) = rank (normalise file) child_dir < r

  -- Each `mod` without a body leads to a file of a lower rank.
  unfoldable mutual
    unfolding module_file

    pub ItemBelow : ℕ → Ctx → Item → Type 0
    ItemBelow r ctx (Item.mod_item attrs name body) =
        BodyBelow r ctx name attrs (scope_within ctx.scope attrs) body
    ItemBelow r ctx (Item.use_item attrs tree leading_colon line) = Unit
    ItemBelow r ctx (Item.other attrs visits) = Unit

    pub BodyBelow : ℕ → Ctx → String → List Attribute → Scope → ModBody → Type 0
    BodyBelow r ctx name attrs scope (ModBody.inline items) =
        ItemsBelow r (child_ctx ctx name scope) items
    BodyBelow r ctx name attrs scope ModBody.in_file = FoundBelow r (module_file ctx name attrs)

    pub ItemsBelow : ℕ → Ctx → Items → Type 0
    ItemsBelow r ctx Items.end = Unit
    ItemsBelow r ctx (Items.item i items) = ItemBelow r ctx i × ItemsBelow r ctx items

  -- The sources rank every file and directory of children above the files that its items lead to.
  pub record Ranked : Type 0 where
    pub descends :
        (ctx : Ctx) (text : String) (items : Items)
        → sources.read ctx.file ≡ some text
        → sources.parse_file text ≡ ok items
        → ItemsBelow (rank ctx.file ctx.child_dir) ctx items

  abbrev LoadEnds : Load → ℕ → Type 0
  LoadEnds load r =
      (sc : Scanner) (ctx : Ctx) → rank ctx.file ctx.child_dir < r → Ends sources (load sc ctx)

  module _ (load : Load) (root : String) (r : ℕ) (ends : LoadEnds load r) where
    walk_found-Ends :
        (found : Option (FilePath × FilePath)) (name : String) (ctx : Ctx) (scope : Scope)
        (sc : Scanner)
        → FoundBelow r found
        → Ends sources (walk_found load root ctx name scope found sc)
    walk_found-Ends none name ctx scope sc below = tt
    walk_found-Ends (some (file, child_dir)) name ctx scope sc below =
        ends sc (record (child_ctx ctx name scope) { file = normalise file; child_dir = child_dir })
          below

    mutual
      unfolding walk_item walk_mod walk_items ItemBelow

      walk_item-Ends :
          (i : Item) (ctx : Ctx) (sc : Scanner)
          → ItemBelow r ctx i
          → Ends sources (walk_item load root ctx i sc)
      walk_item-Ends (Item.mod_item attrs name body) ctx sc below =
          walk_mod-Ends body attrs name ctx (scope_within ctx.scope attrs) sc below
      walk_item-Ends (Item.use_item attrs tree leading_colon line) ctx sc below = tt
      walk_item-Ends (Item.other attrs visits) ctx sc below = tt

      walk_mod-Ends :
          (body : ModBody) (attrs : List Attribute) (name : String) (ctx : Ctx) (scope : Scope)
          (sc : Scanner)
          → BodyBelow r ctx name attrs scope body
          → Ends sources (walk_mod load root ctx attrs name scope body sc)
      walk_mod-Ends (ModBody.inline items) attrs name ctx scope sc below =
          let child = child_ctx ctx name scope in
          walk_items-Ends items child (register sc root child) below
      walk_mod-Ends ModBody.in_file attrs name ctx scope sc below =
          walk_found-Ends (module_file ctx name attrs) name ctx scope sc below

      walk_items-Ends :
          (items : Items) (ctx : Ctx) (sc : Scanner)
          → ItemsBelow r ctx items
          → Ends sources (walk_items load root ctx items sc)
      walk_items-Ends Items.end ctx sc below = tt
      walk_items-Ends (Items.item i items) ctx sc (here, others) =
          and_run-Ends sources (walk_item load root ctx i sc)
            (λ sc1. walk_items load root ctx items sc1) (walk_item-Ends i ctx sc here)
            (λ sc1. walk_items-Ends items ctx sc1 others)

  module _ (ranked : Ranked) (root : String) where
    walk_parsed-Ends :
        (text : String) (load : Load) (parsed : Outcome String Items) (ctx : Ctx) (sc : Scanner)
        → sources.parse_file text ≡ parsed
        → LoadEnds load (rank ctx.file ctx.child_dir)
        → ((items : Items) → parsed ≡ ok items → ItemsBelow (rank ctx.file ctx.child_dir) ctx items)
        → Ends sources (walk_parsed load root ctx parsed sc)
    walk_parsed-Ends text load (ok items) ctx sc parses ends below =
        walk_items-Ends load root (rank ctx.file ctx.child_dir) ends items ctx
          (register sc root ctx) (below items refl)
    walk_parsed-Ends text load (err e) ctx sc parses ends below = tt
    walk_parsed-Ends text load panicked ctx sc parses ends below = (text, parses)

    -- With more fuel than the rank of the file, the walk of a file comes to an end.
    pub walk_file-Ends :
        (fuel : ℕ) (sc : Scanner) (ctx : Ctx)
        → rank ctx.file ctx.child_dir < fuel
        → Ends sources (walk_file fuel root sc ctx)
    unfolding walk_file
    walk_file-Ends zero sc ctx enough = absurd (omega arith)
    walk_file-Ends (suc fuel) sc ctx enough = elim (Option-cases (sources.read ctx.file)) [
      | inl missing ↦ rw (missing, walk_file) tt
      | inr (text, found) ↦
          rw (found, walk_file)
            (walk_parsed-Ends text (walk_file fuel root) (sources.parse_file text) ctx sc refl
              (λ sc1 child lower. walk_file-Ends fuel sc1 child (omega arith))
              (λ items parsed. ranked.descends ctx text items found parsed))
    ]

    pub add_target-Ends :
        (fuel : ℕ) (sc : Scanner) (src : FilePath) (scope : Scope) (known : List String)
        → rank src (parent_dir src) < fuel
        → Ends sources (add_target fuel sc root src scope known)
    unfolding add_target
    add_target-Ends fuel sc src scope known enough =
        walk_file-Ends fuel (record sc { known = insert_ordered root known sc.known })
          (record { module_name = root; file = src; child_dir = parent_dir src; scope = scope })
          enough
