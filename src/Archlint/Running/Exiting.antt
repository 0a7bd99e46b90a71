-- ===== src/Archlint/Running/Exiting.antt =====
-- tools/archlint/src/main.rs: the exit status of a run that checks a model against a rules file.
use Prim.Native.String.{String}
use angzarr_router.Prelude.{
  ℕ, ◌≡◌, ◌≢◌, refl, ap, sym, subst, ◌∙◌, ◌↔◌, ◌⊎◌, inl, inr, false, Option, none, some, List, [],
  ◌∷◌, Outcome, ok, err, panicked, Member, arith,
}
use angzarr_router.Archlint.Model.{Model}
use angzarr_router.Archlint.Syntax.{Sources}
use angzarr_router.Archlint.Rules.{RulesFile, Violation, check, unmatched_from}
use angzarr_router.Archlint.Rules.Checking.{IsViolation, check_iff}
use angzarr_router.Archlint.Rules.Files.{AllRulesUsed, unmatched_from_nil_iff}
use angzarr_router.Archlint.Workspace.{Metadata, build_model}
use angzarr_router.Archlint.Running.{
  Args, Report, Machine, parse_args, load, report_violations, report_rules, report_model, run_with,
  run, exit_code, warning_texts,
}

-- A rules file that a model keeps to, and one that it breaks: no pattern of it is stale, and no edge, or
-- some edge, is a violation.
pub record Keeps (file : RulesFile) (model : Model) : Type 0 where
  pub used : AllRulesUsed model file.rules
  pub clean : (v : Violation) → ¬ IsViolation file.rules model.edges model v

pub record Breaks (file : RulesFile) (model : Model) : Type 0 where
  pub used : AllRulesUsed model file.rules
  pub broken : (v : Violation) × IsViolation file.rules model.edges model v

-- What a run's exit status says of the rules file that it loaded.
abbrev pub Statuses : ℕ → Outcome String RulesFile → Model → Type 0
Statuses code loaded model =
    ((code ≡ 0) ↔ ((file : RulesFile) × (loaded ≡ ok file) × Keeps file model))
    × ((code ≡ 1) ↔ ((file : RulesFile) × (loaded ≡ ok file) × Breaks file model))

data Verdict (code : ℕ) (loaded : Outcome String RulesFile) (model : Model) : Type 0 where
  kept :
      (file : RulesFile)
      → loaded ≡ ok file
      → Keeps file model
      → code ≡ 0
      → Verdict code loaded model
  broken :
      (file : RulesFile)
      → loaded ≡ ok file
      → Breaks file model
      → code ≡ 1
      → Verdict code loaded model
  refused :
      code ≢ 0
      → code ≢ 1
      → ((file : RulesFile) → loaded ≡ ok file → ¬ AllRulesUsed model file.rules)
      → Verdict code loaded model

abbrev file_of : Outcome String RulesFile → RulesFile → RulesFile
file_of (ok file) other = file
file_of loaded other = other

same_file :
    (loaded : Outcome String RulesFile) (file other : RulesFile)
    → loaded ≡ ok file
    → loaded ≡ ok other
    → file ≡ other
same_file loaded file other one two = ap (λ o. file_of o file) (sym one ∙ two)

Keeps-Breaks : (file : RulesFile) (model : Model) → Keeps file model → Breaks file model → ⊥
Keeps-Breaks file model keeps breaks = let (v, is) = breaks.broken in keeps.clean v is

Verdict-Statuses :
    (code : ℕ) (loaded : Outcome String RulesFile) (model : Model)
    → Verdict code loaded model
    → Statuses code loaded model
Verdict-Statuses code loaded model (kept file is keeps zero_code) = (
  (λ z. (file, is, keeps), λ k. zero_code),
  (
    λ one. absurd (omega arith),
    λ (other, also, breaks). absurd (
        Keeps-Breaks file model keeps
          (subst (λ f. Breaks f model) (same_file loaded other file also is) breaks)),
  ),
)
Verdict-Statuses code loaded model (broken file is breaks one_code) = (
  (
    λ z. absurd (omega arith),
    λ (other, also, keeps). absurd (
        Keeps-Breaks other model keeps
          (subst (λ f. Breaks f model) (same_file loaded file other is also) breaks)),
  ),
  (λ one. (file, is, breaks), λ b. one_code),
)
Verdict-Statuses code loaded model (refused not_zero not_one stale) = (
  (λ z. absurd (not_zero z), λ (file, is, keeps). absurd (stale file is keeps.used)),
  (λ one. absurd (not_one one), λ (file, is, breaks). absurd (stale file is breaks.used)),
)

List-cases :
    {A : Type 0} → (xs : List A) → (xs ≡ []) ⊎ ((x : A) × (rest : List A) × (xs ≡ x ∷ rest))
List-cases [] = inl refl
List-cases (x ∷ rest) = inr (x, rest, refl)

module _ (machine : Machine) (args : Args) (model : Model) (warnings : List String) where
  report_violations-Verdict :
      (file : RulesFile)
      → AllRulesUsed model file.rules
      → Verdict
          (exit_code (report_violations machine args file model warnings).result)
          (ok file)
          model
  unfolding report_violations exit_code
  report_violations-Verdict file used = elim (List-cases (check file model)) [
    | inl none_found ↦
        rw (none_found, report_violations)
          (kept file refl
            (record {
              used = used;
              clean = λ v is. absurd (subst (Member v) none_found ((check_iff file model v).1 is));
            })
            refl)
    | inr (v, rest, found) ↦
        rw (found, report_violations)
          (broken file refl
            (record {
              used = used;
              broken = (v, (check_iff file model v).0 (subst (Member v) (sym found) (inl refl)));
            })
            refl)
  ]

  report_rules-Verdict :
      (loaded : Outcome String RulesFile)
      → Verdict (exit_code (report_rules machine args model warnings loaded).result) loaded model
  unfolding report_rules exit_code
  report_rules-Verdict (err e) = refused (λ z. omega arith) (λ z. omega arith) (λ file is used. cc)
  report_rules-Verdict panicked = refused (λ z. omega arith) (λ z. omega arith) (λ file is used. cc)
  report_rules-Verdict (ok file) = elim (List-cases (unmatched_from file model)) [
    | inl fresh ↦
        rw (fresh, report_rules)
          (report_violations-Verdict file ((unmatched_from_nil_iff file model).0 fresh))
    | inr (s, rest, stale) ↦
        rw (stale, report_rules)
          (refused (λ z. omega arith) (λ z. omega arith)
            (λ other is used.
              let all = (unmatched_from_nil_iff file model).1 (
                subst (λ f. AllRulesUsed model f.rules) (same_file (ok file) other file is refl)
                  used) in
              cc))
  ]

abbrev report_of : Option Report → Report
report_of none = record { out = []; errors = []; result = panicked }
report_of (some report) = report

-- A run without `--edges` on a workspace that scans to a model comes to a report. Its exit status is 0
-- exactly when the rules file loads, no pattern of it is stale and no edge violates a rule, and 1 exactly
-- when it loads, no pattern of it is stale and some edge violates a rule.
pub run-Statuses :
    (machine : Machine) ⦃sources : Sources⦄ (fuel : ℕ) (arguments : List String) (args : Args)
    (meta : Metadata) (model : Model) (warnings : List String)
    → parse_args arguments ≡ ok args
    → args.edges ≡ false
    → machine.metadata args.manifest ≡ ok meta
    → build_model fuel meta ≡ some (ok (model, warnings))
    → (report : Report) × (run machine fuel arguments ≡ some report)
      × Statuses (exit_code report.result) (load machine args.rules) model
unfolding run run_with report_model
run-Statuses machine fuel arguments args meta model warnings parsed check_only given built =
    let texts = warning_texts warnings in
    let report = report_rules machine args model texts (load machine args.rules) in
    (
      report,
      rw (parsed, run) (rw (given, built, run_with) (rw (check_only, report_model) refl)),
      Verdict-Statuses _ (load machine args.rules) model
          (report_rules-Verdict machine args model texts (load machine args.rules)),
    )
