-- ===== src/Archlint/Rules/Checking.antt =====
-- tools/archlint/src/rules.rs: `check`, against what a violation is.
use angzarr_router.Prelude.{
  String, ◌≡◌, ◌≢◌, refl, ap, sym, ◌∙◌, ◌↔◌, ◌⊎◌, inl, inr, true, false, Option, none, some, List,
  [], ◌∷◌, any, Member, any-Member, Member-any, any-eq-false, Member-append, append-Member, arith,
  Bool-cases, eq_iff, ◌==◌,
}
use angzarr_router.Archlint.Globs.{matches}
use angzarr_router.Archlint.Globs.Paths.{Fits, matches_iff}
use angzarr_router.Archlint.Model.{Edge, Model, is_internal}
use angzarr_router.Archlint.Rules.{
  Rule, RulesFile, Violation, covers, expand_self, hit, outside_allowed, breaks, broken_by,
  check_edges, check,
}

-- An edge's target fits a pattern of `allow` or `deny`, whose leading `self` is the edge's source.
abbrev pub Hits : Edge → String → Type 0
Hits edge pattern = Fits (expand_self pattern edge.from) edge.to

hit_iff : (edge : Edge) (pattern : String) → (hit edge pattern ≡ true) ↔ Hits edge pattern
unfolding hit
hit_iff edge pattern = matches_iff (expand_self pattern edge.from) edge.to

-- What it is for an edge to break a rule: the rule is about its scope and its source, and its target is
-- denied, or is in the workspace and not among the allowed ones.
pub record Broken (rule : Rule) (edge : Edge) (model : Model) : Type 0 where
  pub in_scope : covers rule.scope edge.scope ≡ true
  pub constrained : (p : String) × Member p rule.from × Fits p edge.from
  pub wrong :
      ((p : String) × Member p rule.deny × Hits edge p)
      ⊎ ((allow : List String) × (rule.allow ≡ some allow)
          × (is_internal model edge.to ≡ true)
          × ((p : String) → Member p allow → ¬ Hits edge p))

abbrev Outside : Option (List String) → Edge → Model → Type 0
Outside allowed edge model =
    (allow : List String) × (allowed ≡ some allow)
    × (is_internal model edge.to ≡ true)
    × ((p : String) → Member p allow → ¬ Hits edge p)

outside_allowed-Outside :
    (allowed : Option (List String)) (edge : Edge) (model : Model)
    → outside_allowed allowed edge model ≡ true
    → Outside allowed edge model
outside_allowed-Outside none edge model h = absurd (ground arith)
outside_allowed-Outside (some allow) edge model h = (
  allow,
  refl,
  ground arith,
  λ p m fits.
      let none_hit = any-eq-false (hit edge) allow (ground arith) p m in
      let one_hit = (hit_iff edge p).1 fits in cc,
)

Outside-outside_allowed :
    (allowed : Option (List String)) (edge : Edge) (model : Model)
    → Outside allowed edge model
    → outside_allowed allowed edge model ≡ true
Outside-outside_allowed allowed edge model (allow, given, internal, misses) =
    elim (Bool-cases (any (hit edge) allow)) [
      | inl some_hit ↦
          let (p, m, holds) = any-Member (hit edge) allow some_hit in
          absurd (misses p m ((hit_iff edge p).0 holds))
      | inr no_hit ↦ rw given (ground arith)
    ]

breaks-Broken :
    (rule : Rule) (edge : Edge) (model : Model)
    → breaks rule edge model ≡ true
    → Broken rule edge model
unfolding breaks
breaks-Broken rule edge model h =
    let (p, m, fits) = any-Member (λ p. matches p edge.from) rule.from (ground arith) in
    record {
      in_scope = ground arith;
      constrained = (p, m, (matches_iff p edge.from).0 fits);
      wrong = elim (Bool-cases (any (hit edge) rule.deny)) [
        | inl denied ↦
            let (q, n, holds) = any-Member (hit edge) rule.deny denied in
            inl (q, n, (hit_iff edge q).0 holds)
        | inr undenied ↦ inr (outside_allowed-Outside rule.allow edge model (ground arith))
      ];
    }

Broken-breaks :
    (rule : Rule) (edge : Edge) (model : Model)
    → Broken rule edge model
    → breaks rule edge model ≡ true
unfolding breaks
Broken-breaks rule edge model b =
    let (p, m, fits) = b.constrained in
    let about =
      Member-any (λ q. matches q edge.from) p rule.from m ((matches_iff p edge.from).1 fits) in
    let covered = b.in_scope in
    elim (b.wrong) [
      | inl (q, n, hits) ↦
          let denied = Member-any (hit edge) q rule.deny n ((hit_iff edge q).1 hits) in ground arith
      | inr outside ↦
          let beyond = Outside-outside_allowed rule.allow edge model outside in
          ground (arith, Bool-cases (any (hit edge) rule.deny))
    ]

-- `breaks` says exactly whether the edge breaks the rule.
pub breaks_iff :
    (rule : Rule) (edge : Edge) (model : Model)
    → (breaks rule edge model ≡ true) ↔ Broken rule edge model
breaks_iff rule edge model = (breaks-Broken rule edge model, Broken-breaks rule edge model)

-- A violation that an edge commits.
abbrev Commits : List Rule → Edge → Model → Violation → Type 0
Commits rules edge model v = (v.edge ≡ edge) × Member v.rule rules × Broken v.rule edge model

broken_by-Commits :
    (v : Violation) (rules : List Rule) (edge : Edge) (model : Model)
    → Member v (broken_by rules edge model)
    → Commits rules edge model v
unfolding broken_by
broken_by-Commits v [] edge model m = absurd m
broken_by-Commits v (rule ∷ rules) edge model m = elim (Bool-cases (breaks rule edge model)) [
  | inr keeps ↦
      let (at, member, broken) =
        broken_by-Commits v rules edge model (rw (keeps, broken_by) at m) in
      (at, inr member, broken)
  | inl broke ↦
      elim (cons_cases v rule edge (broken_by rules edge model) (rw (broke, broken_by) at m)) [
        | inl (at, same) ↦ (at, inl same, rw same (breaks-Broken rule edge model broke))
        | inr later ↦
            let (at, member, broken) = broken_by-Commits v rules edge model later in
            (at, inr member, broken)
      ]
]
  where
    cons_cases :
        (v : Violation) (rule : Rule) (edge : Edge) (rest : List Violation)
        → Member v (record { rule = rule; edge = edge } ∷ rest)
        → ((v.edge ≡ edge) × (v.rule ≡ rule)) ⊎ Member v rest
    cons_cases v rule edge rest (inl same) = inl (ap (λ x. x.edge) same, ap (λ x. x.rule) same)
    cons_cases v rule edge rest (inr m) = inr m

Commits-broken_by :
    (v : Violation) (rules : List Rule) (edge : Edge) (model : Model)
    → Commits rules edge model v
    → Member v (broken_by rules edge model)
unfolding broken_by
Commits-broken_by v [] edge model (at, member, broken) = absurd member
Commits-broken_by v (rule ∷ rules) edge model (at, inl same, broken) =
    let breaks_it = Broken-breaks rule edge model (rw same at broken) in
    rw (breaks_it, broken_by) (inl (ground arith))
Commits-broken_by v (rule ∷ rules) edge model (at, inr member, broken) =
    let later = Commits-broken_by v rules edge model (at, member, broken) in
    elim (Bool-cases (breaks rule edge model)) [
      | inl broke ↦ rw (broke, broken_by) (inr later)
      | inr keeps ↦ rw (keeps, broken_by) later
    ]

-- What a violation in a model is: an edge of the model, between two modules, that breaks a rule of the
-- file.
abbrev pub IsViolation : List Rule → List Edge → Model → Violation → Type 0
IsViolation rules edges model v =
    Member v.edge edges
    × (v.edge.from ≢ v.edge.to)
    × Member v.rule rules
    × Broken v.rule v.edge model

crossing : (edge e : Edge) → e ≡ edge → (edge.from == edge.to) ≡ false → e.from ≢ e.to
crossing edge e at crosses same =
    let equal =
      (eq_iff edge.from edge.to).1 (ap (λ x. x.from) (sym at) ∙ same ∙ ap (λ x. x.to) at) in
    cc

crossed : (edge e : Edge) → e ≡ edge → e.from ≢ e.to → (edge.from == edge.to) ≡ false
crossed edge e at ne = elim (Bool-cases (edge.from == edge.to)) [
  | inr two ↦ two
  | inl own ↦
      let equal = (eq_iff edge.from edge.to).0 own in
      absurd (ne (ap (λ x. x.from) at ∙ equal ∙ ap (λ x. x.to) (sym at)))
]

check_edges-IsViolation :
    (v : Violation) (rules : List Rule) (edges : List Edge) (model : Model)
    → Member v (check_edges rules edges model)
    → IsViolation rules edges model v
unfolding check_edges
check_edges-IsViolation v rules [] model m = absurd m
check_edges-IsViolation v rules (edge ∷ edges) model m = elim (Bool-cases (edge.from == edge.to)) [
  | inl own ↦
      let found = check_edges-IsViolation v rules edges model (rw (own, check_edges) at m) in
      (inr found.0, found.1, found.2, found.3)
  | inr crosses ↦
      elim (append-Member v (broken_by rules edge model) (check_edges rules edges model)
        (rw (crosses, check_edges) at m)) [
          | inl here ↦
              let (at, member, broken) = broken_by-Commits v rules edge model here in
              (inl at, crossing edge v.edge at crosses, member, rw at broken)
          | inr later ↦
              let found = check_edges-IsViolation v rules edges model later in
              (inr found.0, found.1, found.2, found.3)
        ]
]

IsViolation-check_edges :
    (v : Violation) (rules : List Rule) (edges : List Edge) (model : Model)
    → IsViolation rules edges model v
    → Member v (check_edges rules edges model)
unfolding check_edges
IsViolation-check_edges v rules [] model (m, crosses, member, broken) = absurd m
IsViolation-check_edges v rules (edge ∷ edges) model (inl same, crosses, member, broken) =
    let two = crossed edge v.edge same crosses in
    let here = Commits-broken_by v rules edge model (same, member, rw same at broken) in
    rw (two, check_edges)
      (Member-append v (broken_by rules edge model) (check_edges rules edges model) (inl here))
IsViolation-check_edges v rules (edge ∷ edges) model (inr m, crosses, member, broken) =
    let later = IsViolation-check_edges v rules edges model (m, crosses, member, broken) in
    elim (Bool-cases (edge.from == edge.to)) [
      | inl own ↦ rw (own, check_edges) later
      | inr two ↦
          rw (two, check_edges)
            (Member-append v (broken_by rules edge model) (check_edges rules edges model)
              (inr later))
    ]

-- `check` finds exactly the violations: each edge of the model between two modules, with each rule of
-- the file that it breaks.
pub check_iff :
    (file : RulesFile) (model : Model) (v : Violation)
    → Member v (check file model) ↔ IsViolation file.rules model.edges model v
unfolding check
check_iff file model v = (
  check_edges-IsViolation v file.rules model.edges model,
  IsViolation-check_edges v file.rules model.edges model,
)
