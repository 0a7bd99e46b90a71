-- ===== src/Archlint/Resolving/Walks.antt =====
-- tools/archlint/src/scan.rs: where `walk` lands.
use Prim.Native.String.{String}
use angzarr_router.Prelude.{
  ◌≡◌, refl, ap, subst, ◌∙◌, ◌⊎◌, inl, inr, true, false, ◌&&◌, Option, none, some, List, [], ◌∷◌,
  ◌++◌, lookup, contains, is_some, arith, Bool-cases, Option-cases, ◌==◌,
}
use angzarr_router.Archlint.Scanner.{ModuleInfo, Scanner}
use angzarr_router.Archlint.Scanner.Closed.{Registered, Closed}
use angzarr_router.Archlint.Resolving.{
  parent_of, child_of, join, Level, continue_from, next_module, follow_alias, alias_at_home, walk,
  is_crate,
}

join-append :
    (head : String) (one rest : List String) → join (join head one) rest ≡ join head (one ++ rest)
unfolding join
join-append head [] rest = refl
join-append head (seg ∷ one) rest = join-append (child_of head seg) one rest

-- A crate that the code of some module may name: a dependency of its package, or a crate of the
-- workspace.
abbrev pub Nameable : Scanner → String → String → Type 0
Nameable sc home name =
    (m : String) × (info : ModuleInfo) × (lookup m sc.modules ≡ some info)
    × (is_crate sc home info name ≡ true)

-- A path behind the name of a crate that the scanner has no modules of, where the name is one that is
-- said here.
abbrev pub External : Scanner → (String → Type 0) → String → Type 0
External sc Said target =
    (name : String) × (rest : List String) × (target ≡ join name rest)
    × ((contains name sc.workspace_crates && is_some (lookup name sc.modules)) ≡ false)
    × Said name

abbrev pub Landed : Scanner → (String → Type 0) → String → Type 0
Landed sc Said target = Registered sc.modules target ⊎ External sc Said target

abbrev pub LandedOption : Scanner → (String → Type 0) → Option String → Type 0
LandedOption sc Said none = Unit
LandedOption sc Said (some target) = Landed sc Said target

-- What is said of more names.
pub Landed-weaken :
    (sc : Scanner) (Said More : String → Type 0) (target : String)
    → ((name : String) → Said name → More name)
    → Landed sc Said target
    → Landed sc More target
Landed-weaken sc Said More target more (inl there) = inl there
Landed-weaken sc Said More target more (inr (name, rest, is, outside, said)) =
    inr (name, rest, is, outside, more name said)

pub LandedOption-weaken :
    (sc : Scanner) (Said More : String → Type 0) (target : Option String)
    → ((name : String) → Said name → More name)
    → LandedOption sc Said target
    → LandedOption sc More target
LandedOption-weaken sc Said More none more landed = tt
LandedOption-weaken sc Said More (some target) more landed =
    Landed-weaken sc Said More target more landed

External-join :
    (sc : Scanner) (Said : String → Type 0) (target : String) (rest : List String)
    → External sc Said target
    → External sc Said (join target rest)
External-join sc Said target rest (name, one, is, outside, said) =
    (name, one ++ rest, ap (λ t. join t rest) is ∙ join-append name one rest, outside, said)

-- A level of `resolve` and `walk` that lands, on the paths of aliases.
pub record Lands (sc : Scanner) (home : String) (level : Level) : Type 0 where
  pub resolves :
      (module_name : String) (segs : List String)
      → LandedOption sc (Nameable sc home) (level.resolve module_name segs false)
  pub walks :
      (cur : String) (rest : List String)
      → Registered sc.modules cur
      → Landed sc (Nameable sc home) (level.walk cur rest)

abbrev pub BelowLands : Scanner → String → Option Level → Type 0
BelowLands sc home none = Unit
BelowLands sc home (some level) = Lands sc home level

module _ (sc : Scanner) (closed : Closed sc.modules) (home : String) where
  pub continue_from-Landed :
      (walk_on : String → List String → String) (target : String) (rest : List String)
      → ((cur : String) (more : List String)
          → Registered sc.modules cur
          → Landed sc (Nameable sc home) (walk_on cur more))
      → Landed sc (Nameable sc home) target
      → Landed sc (Nameable sc home) (continue_from sc.modules walk_on target rest)
  unfolding continue_from
  continue_from-Landed walk_on target rest walks landed =
      elim (Bool-cases (is_some (lookup target sc.modules))) [
        | inl there ↦ rw (there, continue_from) (walks target rest there)
        | inr away ↦ elim landed [
          | inl there ↦ absurd (ground arith)
          | inr outside ↦
              rw (away, continue_from)
                (inr (External-join sc (Nameable sc home) target rest outside))
        ]
      ]

  follow_alias-Landed :
      (below : Option Level) (alias : Option (List String)) (cur : String) (rest : List String)
      → BelowLands sc home below
      → Registered sc.modules cur
      → Landed sc (Nameable sc home) (follow_alias sc.modules below alias cur rest)
  unfolding follow_alias
  follow_alias-Landed none alias cur rest lands here = inl here
  follow_alias-Landed (some below) none cur rest lands here = inl here
  follow_alias-Landed (some below) (some alias) cur rest lands here =
      elim (Option-cases (below.resolve cur alias false)) [
        | inl nothing ↦ rw (nothing, follow_alias) (inl here)
        | inr (target, found) ↦
            rw (found, follow_alias)
              (continue_from-Landed below.walk target rest lands.walks
                (subst (LandedOption sc (Nameable sc home)) found (lands.resolves cur alias)))
      ]

  pub next_module-Registered :
      (cur : String) (info : ModuleInfo) (seg next : String)
      → lookup cur sc.modules ≡ some info
      → next_module cur info seg ≡ some next
      → Registered sc.modules next
  unfolding next_module
  next_module-Registered cur info seg next found goes =
      let sound = closed.sound cur info found in
      elim (Bool-cases (seg == "super")) [
        | inl up ↦
            let is : parent_of cur info.root ≡ next = ground arith in
            subst (Registered sc.modules) is sound.parent
        | inr other ↦ elim (Bool-cases (seg == "self")) [
          | inl stays ↦
              let is : cur ≡ next = ground arith in subst (Registered sc.modules) is (ground arith)
          | inr named ↦ elim (Bool-cases (contains seg info.children)) [
            | inl child ↦
                let is : child_of cur seg ≡ next = ground arith in
                subst (Registered sc.modules) is (sound.children seg child)
            | inr unknown ↦ absurd (ground arith)
          ]
        ]
      ]

  pub walk-Landed :
      (below : Option Level) (rest : List String) (cur : String)
      → BelowLands sc home below
      → Registered sc.modules cur
      → Landed sc (Nameable sc home) (walk sc.modules home below cur rest)
  unfolding walk
  walk-Landed below [] cur lands here = inl here
  walk-Landed below (seg ∷ rest) cur lands here = elim (Option-cases (lookup cur sc.modules)) [
    | inl missing ↦ rw (missing, walk) (inl here)
    | inr (info, found) ↦ elim (Option-cases (next_module cur info seg)) [
      | inr (next, goes) ↦
          rw (found, goes, walk)
            (walk-Landed below rest next lands
              (next_module-Registered cur info seg next found goes))
      | inl leaves ↦
          rw (found, leaves, walk)
            (follow_alias-Landed below (alias_at_home home info seg) cur rest lands here)
    ]
  ]
