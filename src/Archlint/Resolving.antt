-- ===== src/Archlint/Resolving.antt =====
-- tools/archlint/src/scan.rs: what a written path names. A depth stands as what is below it: the
-- resolution one alias further, or none at `ALIAS_DEPTH`.
pub mod Walks
pub mod Landing
use Prim.Native.String.{String, ◌++◌ as append}
use text.Mathlib.Text.{◌==◌}
use angzarr_router.Prelude.{
  ℕ, zero, suc, Bool, true, false, ◌||◌, ◌&&◌, Option, none, some, List, [], ◌∷◌, Dict, lookup,
  contains, is_some, map_option, unwrap_or, if◌then◌else◌,
}
use angzarr_router.Archlint.Scanner.{ModuleInfo, Scanner, rsplit_once}

-- `ALIAS_DEPTH`.
abbrev pub alias_depth : ℕ
alias_depth = 16

-- `parent_of`.
unfoldable pub parent_of : String → String → String
unfolding rsplit_once
parent_of module_name root =
    if module_name == root
    then root
    else elim (rsplit_once module_name) [ none ↦ root | some (parent, _) ↦ parent ]

abbrev pub child_of : String → String → String
child_of parent name = append parent (append "::" name)

-- `join`.
unfoldable pub join : String → List String → String
join head [] = head
join head (seg ∷ rest) = join (child_of head seg) rest

-- `resolve` and `walk` at one depth.
pub record Level : Type 0 where
  pub resolve : String → List String → Bool → Option String
  pub walk : String → List String → String

-- A segment that `Scanner::walk` goes on through.
unfoldable pub next_module : String → ModuleInfo → String → Option String
unfolding parent_of
next_module cur info seg =
    if seg == "super"
    then some (parent_of cur info.root)
    else if seg == "self"
    then some cur
    else if contains seg info.children
    then some (child_of cur seg)
    else none

-- The alias of a segment, where `Scanner::walk` may follow it.
abbrev pub alias_at_home : String → ModuleInfo → String → Option (List String)
alias_at_home home info seg = if info.root == home then lookup seg info.aliases else none

module _ (modules : Dict ModuleInfo) where
  -- `Scanner::continue_from`.
  unfoldable pub continue_from : (String → List String → String) → String → List String → String
  unfolding lookup join
  continue_from walk target rest =
      if is_some (lookup target modules) then walk target rest else join target rest

  -- A segment that it follows as an alias, with what stands behind it.
  unfoldable pub follow_alias : Option Level → Option (List String) → String → List String → String
  unfolding continue_from
  follow_alias none alias cur rest = cur
  follow_alias (some below) none cur rest = cur
  follow_alias (some below) (some alias) cur rest = elim (below.resolve cur alias false) [
    | none ↦ cur
    | some target ↦ continue_from below.walk target rest
  ]

  module _ (home : String) where
    -- `Scanner::walk`.
    unfoldable pub walk : Option Level → String → List String → String
    unfolding lookup next_module follow_alias
    walk below cur [] = cur
    walk below cur (seg ∷ rest) = elim (lookup cur modules) [
      | none ↦ cur
      | some info ↦ elim (next_module cur info seg) [
        | some next ↦ walk below next rest
        | none ↦ follow_alias below (alias_at_home home info seg) cur rest
      ]
    ]

    -- `Scanner::enter_crate`.
    unfoldable pub enter_crate : List String → Option Level → String → List String → String
    unfolding lookup join
    enter_crate workspace_crates below name rest =
        if contains name workspace_crates && is_some (lookup name modules)
        then walk below name rest
        else join name rest

module _ (sc : Scanner) (home : String) where
  -- The crates that a module of a root may name, in `Scanner::resolve`.
  unfoldable pub is_crate : ModuleInfo → String → Bool
  unfolding lookup
  is_crate info name =
      contains name (unwrap_or (lookup info.root sc.known) []) || contains name sc.workspace_crates

  -- A first segment that is neither a keyword nor a child, in `Scanner::resolve`.
  unfoldable pub resolve_name :
      Option Level
      → Option (List String)
      → String
      → ModuleInfo
      → String
      → List String
      → Option String
  unfolding continue_from walk is_crate enter_crate
  resolve_name (some below) (some alias) module_name info name rest =
      map_option
        (λ target. continue_from sc.modules (walk sc.modules home (some below)) target rest)
        (below.resolve module_name alias false)
  resolve_name below alias module_name info name rest =
      if is_crate info name
      then some (enter_crate sc.modules home sc.workspace_crates below name rest)
      else none

  -- Where a first segment starts, in `Scanner::resolve`.
  unfoldable pub start_at : String → ModuleInfo → String → Option String
  unfolding parent_of
  start_at module_name info first =
      if first == "crate"
      then some info.root
      else if first == "self"
      then some module_name
      else if first == "super"
      then some (parent_of module_name info.root)
      else if contains first info.children
      then some (child_of module_name first)
      else none

  unfoldable pub resolve_in :
      Option Level → String → ModuleInfo → List String → Bool → Option String
  unfolding lookup walk enter_crate resolve_name start_at
  resolve_in below module_name info [] leading_colon = none
  resolve_in below module_name info (first ∷ rest) true =
      some (enter_crate sc.modules home sc.workspace_crates below first rest)
  resolve_in below module_name info (first ∷ rest) false = elim (start_at module_name info first) [
    | some start ↦ some (walk sc.modules home below start rest)
    | none ↦ resolve_name below (lookup first info.aliases) module_name info first rest
  ]

  -- `Scanner::resolve`, over the depth.
  unfoldable pub resolve_at : Option Level → String → List String → Bool → Option String
  unfolding lookup resolve_in
  resolve_at below module_name segs leading_colon = elim (lookup module_name sc.modules) [
    | none ↦ none
    | some info ↦ resolve_in below module_name info segs leading_colon
  ]

  -- What is below a depth that so many aliases are left at.
  unfoldable pub level_below : ℕ → Option Level
  unfolding resolve_at walk
  level_below zero = none
  level_below (suc left) =
      let below = level_below left in
      some (record { resolve = resolve_at below; walk = walk sc.modules home below })

  -- `Scanner::resolve`, at depth 0.
  unfoldable pub resolve : String → List String → Bool → Option String
  unfolding resolve_at level_below
  resolve module_name segs leading_colon =
      resolve_at (level_below alias_depth) module_name segs leading_colon
