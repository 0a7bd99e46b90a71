-- ===== src/Lib.antt =====
-- The angzarr router (crates/router), and the linter of the repository's module dependencies
-- (tools/archlint).
--
-- The router routes a command or a fact by its type to business code,
-- folds history into state, runs a handler's emit with its continuations as one decision, runs a
-- policy's reaction, a projector's fold and an upcaster's rules, and answers every failure as a
-- coded error.
--
-- Files, and the code that each is about (paths under crates/router/src):
--   Prelude/*      shared names: outcomes of Rust calls, maps, texts, lists
--   Wire/*         lib.rs, and the records of core (`pb`) and of the handler layer (`hpb`)
--   Errors/*       error.rs: Codes and Types (GrpcCode, CodedError, HandlerError), Coded (its
--                  constructors and call_handler), Display (its text); Statuses, Facts, Calls and
--                  Reading (proofs)
--   Context        context.rs: CommandContext, command_context, event_meta
--   Rebuild/*      rebuild.rs: Types, Building (Rebuilder's builders), Failures (fold_error,
--                  run_applier), Folding (fold_page, apply_pages, apply_emitted), Rebuilding
--                  (rebuild); Replay, Numbering, Extending, Panics, Naming, Bugs (proofs)
--   Domain/*       domain.rs: Emits (Emit, push), Table (DomainDispatch, route), Deciding (decide,
--                  dispatch, check_step_idempotent); the other files are proofs
--   Policy         policy.rs: react, translate; Policy/Reacting (proofs)
--   Projector      projector.rs: dispatch; Projector/Folding (proofs)
--   Upcaster       upcaster.rs: upcast, dispatch; Upcaster/Termination and Bringing (proofs)
--   Router/*       router.rs: Handlers (the traits, their object-safe twins, boxes), Hosting
--                  (RouterBuilder, Router); Building (proofs)
--   Archlint/*     tools/archlint/src. rules.rs: Globs (matches), Rules (parse, check,
--                  unmatched_from); model.rs: Model; scan.rs: FilePaths (normalise), Uses
--                  (flatten_use), Syntax (what is read of syn's trees), Scanner (register,
--                  record_use), Collecting (Collector), Walking (walk_file, add_target), Resolving
--                  (resolve), Finishing (finish); workspace.rs: Workspace (build_model); main.rs:
--                  Running (run). Texts has what these use of Rust's str; the folders named after a
--                  file hold its proofs
--   Examples/*     a small account and a small workspace on which the results are run
--
-- How the code is modelled:
--   A call is an `Outcome`: Ok, Err, or a panic that unwinds. `catch_unwind` turns the last into an
--   error where the source calls it, and only there. Business code that may not answer an error (a
--   state factory, a codec's encoder) may still panic.
--   A thunk that is handed `&mut S` is a function that answers the state it leaves beside its outcome
--   (`Mutation`), also when it fails or panics: what it did until then stays. Thunks are functions:
--   they answer the same for the same arguments.
--   A continuation is a closure in the source. Business code's closures are named by a type K, and
--   `Closures` says what each answers, so that a decision may continue for ever, as in the source,
--   which has no step cap. `decide` takes fuel for its rounds, and answers none when it runs out: no
--   bound is enough for every handler, as in the source.
--   `upcast` takes the fuel of one round more than there are rules, since each rule runs
--   at most once.
--   A u64 sequence wraps at 2 ^ 64, as in a release build. A BTreeMap is ordered by its keys; a
--   HashMap's order is left open by Rust, so nothing may rest on it.
--   A future is the answer that it resolves to, none if it never does; boxing changes nothing of it.
--   The wire records have the fields that the router reads or writes; messages that it passes through
--   whole are types of the instance argument `Wire`. The catalog of reason keys is core's: its names,
--   surfaces and args are the instance argument `Reasons`, and `HandleReasons` holds the statuses
--   that docs/architecture.md and error.rs give for the keys that a Handle answers.
--
--   archlint's sources are read through the instance argument `Sources`: the disk, syn's parser and
--   Unicode's table of letters and digits; a syntax tree has what the source reads of it. Cargo's
--   metadata, the rules file and toml are the argument `Machine`. A path is its components, without
--   the prefixes of Windows; what is used of std::path is written out on them. A set is a list
--   where only membership is asked. A `#[path]` may lead back to a file that is being read, and the
--   source then recurses for ever, so the files read one within another take fuel; the fuel is enough
--   when it is above a rank that falls from each file to the files that its modules stand in. The
--   depth of aliases, 16 as in the source, is recursion on what is left of it.
--
-- Not modelled: logging; the getters, which are the records' fields; send.rs, which has marker traits
-- only; the conformance harness and the unit tests' support (crates/conformance, test_support.rs),
-- which are tests; and the call of cargo itself in tools/archlint.
mod Prelude
pub mod Wire
pub mod Errors
pub mod Context
pub mod Rebuild
pub mod Domain
pub mod Policy
pub mod Projector
pub mod Upcaster
pub mod Router
pub mod Archlint
mod Examples
