-- ===== src/Archlint/Rules/Files.antt =====
-- tools/archlint/src/rules.rs: the rules files that `parse` accepts, and the stale patterns of one.
use angzarr_router.Prelude.{
  String, ◌≡◌, ◌≢◌, refl, ap, ◌↔◌, ◌⊎◌, inl, inr, none, List, [], ◌∷◌, ◌++◌, Outcome, ok, err,
  panicked, is_some, keys, any, Member, any-Member, Member-any, arith, Bool-cases, Outcome-cases,
}
use angzarr_router.Archlint.Globs.{matches}
use angzarr_router.Archlint.Globs.Paths.{Fits, matches_iff}
use angzarr_router.Archlint.Model.{Model}
use angzarr_router.Archlint.Rules.{
  Rule, RulesFile, accept_rule, accept_rules, parse, unmatched_patterns, unmatched_rules,
  unmatched_from,
}

-- A rule that constrains something: it has `allow` or a `deny`, and a `from`.
pub record Constrains (rule : Rule) : Type 0 where
  pub targets : (rule.allow ≢ none) ⊎ (rule.deny ≢ [])
  pub sources : rule.from ≢ []

abbrev pub AllConstrain : List Rule → Type 0
AllConstrain [] = Unit
AllConstrain (rule ∷ rules) = Constrains rule × AllConstrain rules

accept_rule-Constrains : (rule : Rule) → accept_rule rule ≡ ok tt → Constrains rule
unfolding accept_rule
accept_rule-Constrains rule h = record {
  targets = elim (Bool-cases (is_some rule.allow)) [
    | inl given ↦ inl (λ missing. ground arith)
    | inr missing ↦ inr (λ empty. ground arith)
  ];
  sources = λ empty. ground arith;
}

Constrains-accept_rule : (rule : Rule) → Constrains rule → accept_rule rule ≡ ok tt
unfolding accept_rule
Constrains-accept_rule rule c = elim (c.targets) [
  | inl given ↦ ground (arith, c.sources, given)
  | inr denies ↦ ground (arith, c.sources, denies)
]

accept_rules-AllConstrain : (rules : List Rule) → accept_rules rules ≡ ok tt → AllConstrain rules
unfolding accept_rules
accept_rules-AllConstrain [] h = tt
accept_rules-AllConstrain (rule ∷ rules) h = elim (Outcome-cases (accept_rule rule)) [
  | inl (done, accepted) ↦
      (accept_rule-Constrains rule accepted, accept_rules-AllConstrain rules (ground arith))
  | inr refused ↦ absurd (ground arith)
]

AllConstrain-accept_rules : (rules : List Rule) → AllConstrain rules → accept_rules rules ≡ ok tt
unfolding accept_rules
AllConstrain-accept_rules [] all = refl
AllConstrain-accept_rules (rule ∷ rules) (c, all) =
    ground (arith, Constrains-accept_rule rule c, AllConstrain-accept_rules rules all)

parse-accepted :
    (parsed : Outcome String RulesFile) (file : RulesFile)
    → parse parsed ≡ ok file
    → (parsed ≡ ok file) × AllConstrain file.rules
unfolding parse
parse-accepted (ok f) file h = elim (Outcome-cases (accept_rules f.rules)) [
  | inl (done, accepted) ↦
      let same : f ≡ file = ground arith in
      (ap ok same, rw same at (accept_rules-AllConstrain f.rules accepted))
  | inr refused ↦ absurd (ground arith)
]
parse-accepted (err e) file h = absurd (ground arith)
parse-accepted panicked file h = absurd (ground arith)

accepted-parse :
    (parsed : Outcome String RulesFile) (file : RulesFile)
    → (parsed ≡ ok file) × AllConstrain file.rules
    → parse parsed ≡ ok file
unfolding parse
accepted-parse parsed file (is, all) =
    rw is (ground (arith, AllConstrain-accept_rules file.rules all))

-- `parse` accepts a rules file exactly when it parses as toml and each of its rules constrains
-- something: a rule has an `allow` or some `deny`, and some `from`.
pub parse_iff :
    (parsed : Outcome String RulesFile) (file : RulesFile)
    → (parse parsed ≡ ok file) ↔ ((parsed ≡ ok file) × AllConstrain file.rules)
parse_iff parsed file = (parse-accepted parsed file, accepted-parse parsed file)

-- Each pattern fits some module of the model, and so for each rule's `from`.
abbrev pub AllUsed : Model → List String → Type 0
AllUsed model [] = Unit
AllUsed model (p ∷ ps) =
    ((m : String) × Member m (keys model.modules) × Fits p m) × AllUsed model ps

abbrev pub AllRulesUsed : Model → List Rule → Type 0
AllRulesUsed model [] = Unit
AllRulesUsed model (rule ∷ rules) = AllUsed model rule.from × AllRulesUsed model rules

module _ (model : Model) (name : String) where
  unmatched_patterns-AllUsed :
      (ps : List String) → unmatched_patterns name ps model ≡ [] → AllUsed model ps
  unfolding unmatched_patterns
  unmatched_patterns-AllUsed [] h = tt
  unmatched_patterns-AllUsed (p ∷ ps) h =
      elim (Bool-cases (any (λ m. matches p m) (keys model.modules))) [
        | inr stale ↦ absurd (ground arith)
        | inl used ↦
            let (m, member, fits) = any-Member (λ m. matches p m) (keys model.modules) used in
            ((m, member, (matches_iff p m).0 fits), unmatched_patterns-AllUsed ps (ground arith))
      ]

  AllUsed-unmatched_patterns :
      (ps : List String) → AllUsed model ps → unmatched_patterns name ps model ≡ []
  unfolding unmatched_patterns
  AllUsed-unmatched_patterns [] all = refl
  AllUsed-unmatched_patterns (p ∷ ps) ((m, member, fits), all) =
      let used =
        Member-any (λ m. matches p m) m (keys model.modules) member ((matches_iff p m).1 fits) in
      ground (arith, AllUsed-unmatched_patterns ps all)

append_nil : {A : Type 0} (xs ys : List A) → xs ++ ys ≡ [] → (xs ≡ []) × (ys ≡ [])
append_nil [] ys h = (refl, h)
append_nil (x ∷ xs) ys h = cc

unmatched_rules-AllRulesUsed :
    (model : Model) (rules : List Rule)
    → unmatched_rules rules model ≡ []
    → AllRulesUsed model rules
unfolding unmatched_rules
unmatched_rules-AllRulesUsed model [] h = tt
unmatched_rules-AllRulesUsed model (rule ∷ rules) h =
    let (own, others) =
      append_nil (unmatched_patterns rule.name rule.from model) (unmatched_rules rules model) h in
    (
      unmatched_patterns-AllUsed model rule.name rule.from own,
      unmatched_rules-AllRulesUsed model rules others,
    )

AllRulesUsed-unmatched_rules :
    (model : Model) (rules : List Rule)
    → AllRulesUsed model rules
    → unmatched_rules rules model ≡ []
unfolding unmatched_rules
AllRulesUsed-unmatched_rules model [] all = refl
AllRulesUsed-unmatched_rules model (rule ∷ rules) (own, others) =
    rw (AllUsed-unmatched_patterns model rule.name rule.from own)
      (AllRulesUsed-unmatched_rules model rules others)

-- No stale pattern is reported exactly when each `from` pattern of each rule fits some module.
pub unmatched_from_nil_iff :
    (file : RulesFile) (model : Model)
    → (unmatched_from file model ≡ []) ↔ AllRulesUsed model file.rules
unfolding unmatched_from
unmatched_from_nil_iff file model =
    (unmatched_rules-AllRulesUsed model file.rules, AllRulesUsed-unmatched_rules model file.rules)
