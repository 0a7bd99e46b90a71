-- ===== src/Archlint/Globs.antt =====
-- tools/archlint/src/rules.rs: whether a path matches a pattern.
pub mod Wild
pub mod Deciding
pub mod Paths
pub mod Splitting
use Prim.Native.Char.{Char}
use Prim.Native.String.{String, ◌∷◌ as char_cons}
use text.Mathlib.Text.{◌==◌}
use angzarr_router.Prelude.{
  ℕ, zero, suc, ◌-◌, Bool, true, false, ◌||◌, ◌&&◌, not, Option, none, some, List, [], ◌∷◌,
  is_empty, nat_eq, if◌then◌else◌, and_then, map_option,
}
use angzarr_router.Archlint.Texts.{strip_prefix, split_once, any_suffix}

-- How many chars a text has.
abbrev pub chars : String → ℕ
chars String.[] = 0
chars (String.◌∷◌ c s) = suc (chars s)

-- `segment_match`, on fuel: each round takes a '*' off the pattern.
unfoldable pub segment_match_on : ℕ → String → String → Bool
unfolding strip_prefix split_once any_suffix
segment_match_on zero pattern seg = false
segment_match_on (suc fuel) pattern seg = elim (split_once b'*' pattern) [
  | none ↦ pattern == seg
  | some (prefix, rest) ↦ elim (strip_prefix prefix seg) [
    | none ↦ false
    | some after ↦ any_suffix (λ tail. segment_match_on fuel rest tail) after
  ]
]

-- `segment_match`.
unfoldable pub segment_match : String → String → Bool
unfolding segment_match_on
segment_match pattern seg = segment_match_on (suc (chars pattern)) pattern seg

-- Whether a test holds of some `&path[i..]`.
unfoldable pub any_tail {ℓ} : {A : Type ℓ} → (List A → Bool) → List A → Bool
any_tail test [] = test []
any_tail test (x ∷ xs) = test (x ∷ xs) || any_tail test xs

-- `segments_match`.
unfoldable pub segments_match : List String → List String → Bool
unfolding segment_match any_tail
segments_match [] path = is_empty path
segments_match (seg ∷ rest) path = elim (seg == "**") [
  | true ↦ any_tail (λ tail. segments_match rest tail) path
  | false ↦ elim path [
    | [] ↦ false
    | head ∷ tail ↦ segment_match seg head && segments_match rest tail
  ]
]

-- A char put before the first of the pieces of a split.
abbrev pub onto_first : Char → List String → List String
onto_first c [] = char_cons c "" ∷ []
onto_first c (piece ∷ pieces) = char_cons c piece ∷ pieces

-- The pieces of `str::split`; `skip` chars of a separator are still to pass.
unfoldable pub pieces : String → ℕ → String → List String
unfolding strip_prefix
pieces sep skip String.[] = "" ∷ []
pieces sep (suc skip) (String.◌∷◌ c s) = pieces sep skip s
pieces sep zero (String.◌∷◌ c s) = elim (strip_prefix sep (char_cons c s)) [
  | some _ ↦ "" ∷ pieces sep (chars sep - 1) s
  | none ↦ onto_first c (pieces sep zero s)
]

-- The pieces that are not empty.
abbrev pub non_empty : List String → List String
non_empty [] = []
non_empty (piece ∷ rest) = if piece == "" then non_empty rest else piece ∷ non_empty rest

-- `split`.
unfoldable pub split : String → String → List String
unfolding pieces
split s sep = non_empty (pieces sep 0 s)

-- `matches`, on what both texts are behind `path:`.
abbrev pub matches_kinds : Option String → Option String → String → String → Bool
matches_kinds (some p) (some q) pattern path = segments_match (split p "/") (split q "/")
matches_kinds none none pattern path = segments_match (split pattern "::") (split path "::")
matches_kinds _ _ pattern path = false

-- `matches`.
unfoldable pub matches : String → String → Bool
unfolding segments_match split strip_prefix
matches pattern path =
    matches_kinds (strip_prefix "path:" pattern) (strip_prefix "path:" path) pattern path
