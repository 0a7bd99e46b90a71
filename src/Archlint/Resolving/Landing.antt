-- ===== src/Archlint/Resolving/Landing.antt =====
-- tools/archlint/src/scan.rs: where `resolve` lands.
use Prim.Native.String.{String}
use angzarr_router.Prelude.{
  ℕ, zero, suc, ◌≡◌, refl, subst, ◌⊎◌, first, inl, inr, Bool, true, false, ◌&&◌, Option, none, some,
  List, [], ◌∷◌, lookup, contains, is_some, if◌then◌else◌, arith, Bool-cases, Option-cases, ◌==◌,
  eq_iff,
}
use angzarr_router.Archlint.Scanner.{ModuleInfo, Scanner}
use angzarr_router.Archlint.Scanner.Closed.{Registered, Closed}
use angzarr_router.Archlint.Resolving.{
  alias_depth, Level, next_module, walk, enter_crate, is_crate, resolve_name, start_at, resolve_in,
  resolve_at, level_below, resolve,
}
use angzarr_router.Archlint.Resolving.Walks.{
  Nameable, Landed, LandedOption, Landed-weaken, LandedOption-weaken, BelowLands,
  continue_from-Landed, next_module-Registered, walk-Landed,
}

-- The crates that a path may be written into: one that its module's code, or the code of an alias's
-- module, may name, and behind a leading `::` the path's first segment.
abbrev pub Sayable : Scanner → String → List String → Bool → String → Type 0
Sayable sc home segs leading_colon name =
    Nameable sc home name ⊎ ((leading_colon ≡ true) × (first segs ≡ some name))

module _ (sc : Scanner) (closed : Closed sc.modules) (home : String) where
  enter_crate-Landed :
      (Said : String → Type 0) (below : Option Level) (name : String) (rest : List String)
      → BelowLands sc home below
      → ((n : String) → Nameable sc home n → Said n)
      → Said name
      → Landed sc Said (enter_crate sc.modules home sc.workspace_crates below name rest)
  unfolding enter_crate
  enter_crate-Landed Said below name rest lands more said =
      elim (Bool-cases (contains name sc.workspace_crates && is_some (lookup name sc.modules))) [
        | inl inside ↦
            rw (inside, enter_crate)
              (Landed-weaken sc (Nameable sc home) Said _ more
                (walk-Landed sc closed home below rest name lands (ground arith)))
        | inr outside ↦ rw (outside, enter_crate) (inr (name, rest, refl, outside, said))
      ]

  not_both : (seg : String) → (seg == "self") ≡ true → (seg == "super") ≡ false
  not_both seg own = rw ((eq_iff seg "self").0 own) refl

  start_at-Registered :
      (module_name : String) (info : ModuleInfo) (head start : String)
      → lookup module_name sc.modules ≡ some info
      → start_at sc home module_name info head ≡ some start
      → Registered sc.modules start
  unfolding start_at next_module
  start_at-Registered module_name info head start found starts =
      let sound = closed.sound module_name info found in
      elim (Bool-cases (head == "crate")) [
        | inl top ↦
            let is : info.root ≡ start = ground arith in subst (Registered sc.modules) is sound.root
        | inr inner ↦
            next_module-Registered sc closed home module_name info head start found
              (as_next module_name info head start inner starts)
      ]
    where
      as_next :
          (module_name : String) (info : ModuleInfo) (head start : String)
          → (head == "crate") ≡ false
          → start_at sc home module_name info head ≡ some start
          → next_module module_name info head ≡ some start
      as_next module_name info head start inner starts =
          ground (arith, Bool-cases (head == "self"), not_both head)

  by_crate-Landed :
      (below : Option Level) (module_name : String) (info : ModuleInfo) (name : String)
      (rest : List String)
      → lookup module_name sc.modules ≡ some info
      → BelowLands sc home below
      → LandedOption sc (Nameable sc home) (
          if is_crate sc home info name
          then some (enter_crate sc.modules home sc.workspace_crates below name rest)
          else none)
  by_crate-Landed below module_name info name rest found lands =
      elim (Bool-cases (is_crate sc home info name)) [
        | inl named ↦ rw named (
            enter_crate-Landed (Nameable sc home) below name rest lands (λ n said. said)
              (module_name, info, found, named))
        | inr unnamed ↦ rw unnamed tt
      ]

  resolve_name-Landed :
      (below : Option Level) (alias : Option (List String)) (module_name : String)
      (info : ModuleInfo) (name : String) (rest : List String)
      → lookup module_name sc.modules ≡ some info
      → BelowLands sc home below
      → LandedOption sc
          (Nameable sc home)
          (resolve_name sc home below alias module_name info name rest)
  unfolding resolve_name
  resolve_name-Landed none alias module_name info name rest found lands =
      by_crate-Landed none module_name info name rest found lands
  resolve_name-Landed (some below) none module_name info name rest found lands =
      by_crate-Landed (some below) module_name info name rest found lands
  resolve_name-Landed (some below) (some alias) module_name info name rest found lands =
      elim (Option-cases (below.resolve module_name alias false)) [
        | inl nothing ↦ rw (nothing, resolve_name) tt
        | inr (target, names) ↦
            rw (names, resolve_name)
              (continue_from-Landed sc closed home (walk sc.modules home (some below)) target rest
                (λ cur more here. walk-Landed sc closed home (some below) more cur lands here)
                (subst (LandedOption sc (Nameable sc home)) names
                  (lands.resolves module_name alias)))
      ]

  plain-Landed :
      (below : Option Level) (module_name : String) (info : ModuleInfo) (head : String)
      (rest : List String)
      → lookup module_name sc.modules ≡ some info
      → BelowLands sc home below
      → LandedOption sc
          (Nameable sc home)
          (resolve_in sc home below module_name info (head ∷ rest) false)
  unfolding resolve_in
  plain-Landed below module_name info head rest found lands =
      elim (Option-cases (start_at sc home module_name info head)) [
        | inr (start, starts) ↦
            rw (starts, resolve_in)
              (walk-Landed sc closed home below rest start lands
                (start_at-Registered module_name info head start found starts))
        | inl elsewhere ↦
            rw (elsewhere, resolve_in)
              (resolve_name-Landed below (lookup head info.aliases) module_name info head rest found
                lands)
      ]

  resolve_at-Landed :
      (below : Option Level) (module_name : String) (segs : List String) (leading_colon : Bool)
      → BelowLands sc home below
      → LandedOption sc
          (Sayable sc home segs leading_colon)
          (resolve_at sc home below module_name segs leading_colon)
  unfolding resolve_at
  resolve_at-Landed below module_name segs leading_colon lands =
      elim (Option-cases (lookup module_name sc.modules)) [
        | inl missing ↦ rw (missing, resolve_at) tt
        | inr (info, found) ↦
            rw (found, resolve_at)
              (resolve_in-Landed below module_name info segs leading_colon found lands)
      ]
    where
      resolve_in-Landed :
          (below : Option Level) (module_name : String) (info : ModuleInfo) (segs : List String)
          (leading_colon : Bool)
          → lookup module_name sc.modules ≡ some info
          → BelowLands sc home below
          → LandedOption sc
              (Sayable sc home segs leading_colon)
              (resolve_in sc home below module_name info segs leading_colon)
      resolve_in-Landed below module_name info [] leading_colon found lands = tt
      resolve_in-Landed below module_name info (head ∷ rest) true found lands =
          enter_crate-Landed (Sayable sc home (head ∷ rest) true) below head rest lands
            (λ n said. inl said) (inr (refl, refl))
      resolve_in-Landed below module_name info (head ∷ rest) false found lands =
          LandedOption-weaken sc (Nameable sc home) (Sayable sc home (head ∷ rest) false) _
            (λ n said. inl said) (plain-Landed below module_name info head rest found lands)

  alias-Landed :
      (below : Option Level) (module_name : String) (segs : List String)
      → BelowLands sc home below
      → LandedOption sc (Nameable sc home) (resolve_at sc home below module_name segs false)
  alias-Landed below module_name segs lands =
      LandedOption-weaken sc (Sayable sc home segs false) (Nameable sc home) _
        (λ n said. elim said [ inl named ↦ named | inr (colon, is) ↦ cc ])
        (resolve_at-Landed below module_name segs false lands)

  level_below-Lands : (left : ℕ) → BelowLands sc home (level_below sc home left)
  unfolding level_below
  level_below-Lands zero = tt
  level_below-Lands (suc left) = record {
    resolves = λ module_name segs.
        alias-Landed (level_below sc home left) module_name segs (level_below-Lands left);
    walks = λ cur rest here.
        walk-Landed sc closed home (level_below sc home left) rest cur (level_below-Lands left)
          here;
  }

  -- In a closed table a reference resolves to a module of the table, or to a path behind the name of a
  -- crate that the table has no modules of and that the code may name.
  pub resolve-Landed :
      (module_name : String) (segs : List String) (leading_colon : Bool) (target : String)
      → resolve sc home module_name segs leading_colon ≡ some target
      → Landed sc (Sayable sc home segs leading_colon) target
  unfolding resolve
  resolve-Landed module_name segs leading_colon target names =
      subst (LandedOption sc (Sayable sc home segs leading_colon)) names (
        resolve_at-Landed (level_below sc home alias_depth) module_name segs leading_colon
          (level_below-Lands alias_depth))
