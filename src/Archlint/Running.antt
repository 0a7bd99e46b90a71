-- ===== src/Archlint/Running.antt =====
-- tools/archlint/src/main.rs: the command line, the run, and its exit status. `cargo metadata`, the disk
-- and toml are parameters.
pub mod Exiting
use Prim.Native.String.{String, ◌++◌ as append}
use text.Mathlib.Text.{◌==◌}
use angzarr_router.Prelude.{
  ℕ, zero, suc, Bool, true, false, Option, none, some, List, [], ◌∷◌, ◌++◌, Outcome, ok, err,
  panicked, ◌>>=◌, map_err, Fueled, and_run, keys, length, insert_ordered, if◌then◌else◌,
}
use angzarr_router.Prelude.Text.{decimal}
use angzarr_router.Archlint.Model.{FilePath, Scope, Edge, Model}
use angzarr_router.Archlint.FilePaths.{components, display_path}
use angzarr_router.Archlint.Rules.{Rule, RulesFile, Violation, parse, check, unmatched_from}
use angzarr_router.Archlint.Syntax.{Sources}
use angzarr_router.Archlint.Workspace.{Metadata, build_model}

-- `Args`.
pub record Args : Type 0 where
  pub rules : FilePath
  pub manifest : FilePath
  pub edges : Bool

-- The arguments of a command line without any.
abbrev pub default_args : Args
default_args = record {
  rules = components "archlint.toml";
  manifest = components "Cargo.toml";
  edges = false;
}

-- The loop of `parse_args`.
unfoldable pub parse_onto : Args → List String → Outcome String Args
unfolding components
parse_onto args [] = ok args
parse_onto args (arg ∷ []) =
    if arg == "--rules"
    then err "--rules needs a path"
    else if arg == "--manifest-path"
    then err "--manifest-path needs a path"
    else if arg == "--edges"
    then ok (record args { edges = true })
    else err (append "unknown argument `" (append arg "`"))
parse_onto args (arg ∷ next ∷ rest) = elim (arg == "--rules") [
  | true ↦ parse_onto (record args { rules = components next }) rest
  | false ↦ elim (arg == "--manifest-path") [
    | true ↦ parse_onto (record args { manifest = components next }) rest
    | false ↦ elim (arg == "--edges") [
      | true ↦ parse_onto (record args { edges = true }) (next ∷ rest)
      | false ↦ err (append "unknown argument `" (append arg "`"))
    ]
  ]
]

-- `parse_args`.
unfoldable pub parse_args : List String → Outcome String Args
unfolding parse_onto
parse_args arguments = parse_onto default_args arguments

-- A line of `print_edges`; the set of them is in order and holds each once.
abbrev pub edge_line : Edge → String
edge_line e =
    append (elim (e.scope) [ Scope.lib ↦ "lib " | Scope.test ↦ "test" ])
      (append " " (append e.from (append " -> " e.to)))

abbrev line_set : List Edge → List (String × Unit {0})
line_set [] = []
line_set (e ∷ edges) = insert_ordered (edge_line e) tt (line_set edges)

-- `print_edges`.
unfoldable pub print_edges : Model → List String
unfolding insert_ordered
print_edges model = keys (line_set model.edges)

-- The texts of `run`.
abbrev stale_text : String × String → String
stale_text (rule, pattern) =
    append "rule `"
      (append rule (append "`: `from` pattern `" (append pattern "` matches no module")))

abbrev pub stale_list : List (String × String) → String
stale_list [] = ""
stale_list (s ∷ []) = stale_text s
stale_list (s ∷ t ∷ rest) = append (stale_text s) (append "\n" (stale_list (t ∷ rest)))

abbrev located : FilePath → ℕ → String
located file zero = display_path file
located file (suc n) = append (display_path file) (append ":" (decimal (suc n)))

abbrev violation_text : Violation → String
violation_text v = append "\n[" (
    append v.rule.name (
      append "] " (
        append v.rule.why (
          append "\n  " (
            append (located v.edge.file v.edge.line) (
              append "  " (
                append v.edge.from (
                  append " -> "
                    (append v.edge.to (append "  (via " (append v.edge.via ")")))))))))))

abbrev violation_texts : List Violation → List String
violation_texts [] = []
violation_texts (v ∷ vs) = violation_text v ∷ violation_texts vs

abbrev clean_text : RulesFile → Model → String
clean_text file model = append "archlint: " (
    append (decimal (length file.rules)) (
      append " rules, " (
        append (decimal (length (keys model.modules)))
          (append " modules, " (append (decimal (length model.edges)) " edges: no violations")))))

abbrev warning_texts : List String → List String
warning_texts [] = []
warning_texts (w ∷ ws) = append "archlint: warning: " w ∷ warning_texts ws

-- What a run prints, and what it comes to.
pub record Report : Type 0 where
  pub out : List String
  pub errors : List String
  pub result : Outcome String Bool

-- What `archlint` asks of the machine besides the sources: `cargo metadata`, the text of the rules file,
-- and toml.
pub record Machine : Type 0 where
  pub metadata : FilePath → Outcome String Metadata
  pub read_rules : FilePath → Outcome String String
  pub parse_toml : String → Outcome String RulesFile

module _ (machine : Machine) where
  -- `rules::load`.
  unfoldable pub load : FilePath → Outcome String RulesFile
  unfolding parse display_path
  load path =
      map_err (λ e. append (display_path path) (append ": " e))
        (machine.read_rules path >>= λ text. parse (machine.parse_toml text))

  -- The rules against the model, in `run`.
  unfoldable pub report_violations : Args → RulesFile → Model → List String → Report
  unfolding display_path decimal check
  report_violations args file model warnings = elim (check file model) [
    | [] ↦ record { out = clean_text file model ∷ []; errors = warnings; result = ok true }
    | v ∷ vs ↦ record {
      out = [];
      errors =
          warnings
          ++ (append "archlint: " (
                append (decimal (length (v ∷ vs)))
                  (append " violation(s) of " (display_path args.rules)))
              ∷ violation_texts (v ∷ vs));
      result = ok false;
    }
  ]

  unfoldable pub report_rules : Args → Model → List String → Outcome String RulesFile → Report
  unfolding unmatched_from report_violations
  report_rules args model warnings (err e) = record { out = []; errors = warnings; result = err e }
  report_rules args model warnings panicked = record {
    out = [];
    errors = warnings;
    result = panicked;
  }
  report_rules args model warnings (ok file) = elim (unmatched_from file model) [
    | [] ↦ report_violations args file model warnings
    | s ∷ stale ↦ record { out = []; errors = warnings; result = err (stale_list (s ∷ stale)) }
  ]

  unfoldable pub report_model : Args → Outcome String (Model × List String) → Report
  unfolding print_edges load report_rules
  report_model args (err e) = record { out = []; errors = []; result = err e }
  report_model args panicked = record { out = []; errors = []; result = panicked }
  report_model args (ok (model, warnings)) =
      if args.edges
      then record { out = print_edges model; errors = warning_texts warnings; result = ok true }
      else report_rules args model (warning_texts warnings) (load args.rules)

  module _ ⦃sources : Sources⦄ (fuel : ℕ) where
    -- `run`, of the arguments; none when the fuel of the scan ran out.
    unfoldable pub run_with : Args → Option Report
    unfolding build_model report_model
    run_with args = elim (machine.metadata args.manifest) [
      | err e ↦ some (record { out = []; errors = []; result = err e })
      | panicked ↦ some (record { out = []; errors = []; result = panicked })
      | ok meta ↦ elim (build_model fuel meta) [
        | none ↦ none
        | some built ↦ some (report_model args built)
      ]
    ]

    unfoldable pub run : List String → Option Report
    unfolding parse_args run_with
    run arguments = elim (parse_args arguments) [
      | err e ↦ some (record { out = []; errors = []; result = err e })
      | panicked ↦ some (record { out = []; errors = []; result = panicked })
      | ok args ↦ run_with args
    ]

-- The exit status of `main`; a panic's is 101.
unfoldable pub exit_code : Outcome String Bool → ℕ
exit_code (ok true) = 0
exit_code (ok false) = 1
exit_code (err e) = 2
exit_code panicked = 101
