-- ===== src/Archlint/Rules.antt =====
-- tools/archlint/src/rules.rs: the rules file and its evaluation against a model.
pub mod Checking
pub mod Files
use Prim.Native.String.{String, ◌++◌ as append}
use text.Mathlib.Text.{◌==◌}
use angzarr_router.Prelude.{
  ℕ, Bool, true, false, not, ◌||◌, ◌&&◌, Option, none, some, List, [], ◌∷◌, ◌++◌, Outcome, ok, err,
  panicked, ◌>>=◌, is_empty, is_some, keys, any, if◌then◌else◌,
}
use angzarr_router.Archlint.Texts.{strip_prefix}
use angzarr_router.Archlint.Globs.{matches}
use angzarr_router.Archlint.Model.{Scope, Edge, Model, is_internal}

-- `ScopeSel`.
pub data ScopeSel : Type 0 where
  all : ScopeSel
  lib : ScopeSel
  test : ScopeSel

-- `Rule`, and `RulesFile`.
pub record Rule : Type 0 where
  pub name : String
  pub why : String
  pub from : List String
  pub scope : ScopeSel
  pub allow : Option (List String)
  pub deny : List String

pub record RulesFile : Type 0 where
  pub rules : List Rule

-- `Violation`.
pub record Violation : Type 0 where
  pub rule : Rule
  pub edge : Edge

-- `ScopeSel::covers`.
unfoldable pub covers : ScopeSel → Scope → Bool
covers ScopeSel.all scope = true
covers ScopeSel.lib Scope.lib = true
covers ScopeSel.lib Scope.test = false
covers ScopeSel.test Scope.lib = false
covers ScopeSel.test Scope.test = true

-- The texts that `parse` refuses a rule with.
abbrev pub neither_error : String → String
neither_error name = append "rule `" (append name "` has neither `allow` nor `deny`")

abbrev pub empty_from_error : String → String
empty_from_error name = append "rule `" (append name "` has an empty `from`")

-- One round of the loop of `parse`.
unfoldable pub accept_rule : Rule → Outcome String (Unit {0})
accept_rule rule =
    if not (is_some rule.allow) && is_empty rule.deny
    then err (neither_error rule.name)
    else if is_empty rule.from
    then err (empty_from_error rule.name)
    else ok tt

unfoldable pub accept_rules : List Rule → Outcome String (Unit {0})
accept_rules [] = ok tt
accept_rules (rule ∷ rules) = let rest = accept_rules rules in accept_rule rule >>= λ _. rest

-- `parse`, on what toml makes of the text.
unfoldable pub parse : Outcome String RulesFile → Outcome String RulesFile
unfolding accept_rules
parse parsed = parsed >>= λ file. accept_rules file.rules >>= λ _. ok file

-- `expand_self`.
unfoldable pub expand_self : String → String → String
unfolding strip_prefix
expand_self pattern from = elim (strip_prefix "self" pattern) [
  | none ↦ pattern
  | some rest ↦
      if rest == ""
      then from
      else if is_some (strip_prefix "::" rest)
      then append from rest
      else pattern
]

-- The test of an edge's target by a pattern, in `breaks`.
unfoldable pub hit : Edge → String → Bool
unfolding matches expand_self
hit edge pattern = matches (expand_self pattern edge.from) edge.to

abbrev pub outside_allowed : Option (List String) → Edge → Model → Bool
outside_allowed none edge model = false
outside_allowed (some allow) edge model =
    is_internal model edge.to && not (any (λ p. hit edge p) allow)

-- `breaks`.
unfoldable pub breaks : Rule → Edge → Model → Bool
breaks rule edge model =
    if not (covers rule.scope edge.scope) || not (any (λ p. matches p edge.from) rule.from)
    then false
    else if any (λ p. hit edge p) rule.deny
    then true
    else outside_allowed rule.allow edge model

-- The inner loop of `check`.
unfoldable pub broken_by : List Rule → Edge → Model → List Violation
broken_by [] edge model = []
broken_by (rule ∷ rules) edge model =
    let rest = broken_by rules edge model in
    if breaks rule edge model then record { rule = rule; edge = edge } ∷ rest else rest

-- `check`.
unfoldable pub check_edges : List Rule → List Edge → Model → List Violation
check_edges rules [] model = []
check_edges rules (edge ∷ edges) model =
    let rest = check_edges rules edges model in
    if edge.from == edge.to then rest else broken_by rules edge model ++ rest

unfoldable pub check : RulesFile → Model → List Violation
check file model = check_edges file.rules model.edges model

-- `unmatched_from`.
unfoldable pub unmatched_patterns : String → List String → Model → List (String × String)
unmatched_patterns name [] model = []
unmatched_patterns name (pattern ∷ patterns) model =
    let rest = unmatched_patterns name patterns model in
    if any (λ m. matches pattern m) (keys model.modules) then rest else (name, pattern) ∷ rest

unfoldable pub unmatched_rules : List Rule → Model → List (String × String)
unmatched_rules [] model = []
unmatched_rules (rule ∷ rules) model =
    unmatched_patterns rule.name rule.from model ++ unmatched_rules rules model

unfoldable pub unmatched_from : RulesFile → Model → List (String × String)
unmatched_from file model = unmatched_rules file.rules model
