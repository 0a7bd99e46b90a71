-- ===== src/Examples/Linter.antt =====
-- What a run of archlint computes with.
use angzarr_router.Prelude.{lookup, insert_ordered}
use angzarr_router.Prelude.Text.{decimal}
use angzarr_router.Archlint.Texts.{strip_prefix, split_once, any_suffix}
use angzarr_router.Archlint.Globs.{
  segment_match_on, segment_match, any_tail, segments_match, pieces, split, matches,
}
use angzarr_router.Archlint.Model.{is_internal}
use angzarr_router.Archlint.Rules.{
  covers, accept_rule, accept_rules, parse, expand_self, hit, breaks, broken_by, check_edges, check,
  unmatched_patterns, unmatched_rules, unmatched_from,
}
use angzarr_router.Archlint.FilePaths.{
  components, join_path, without_last, parent_dir, pop, push, normalise_onto, normalise, strip_root,
  relative, display_path,
}
use angzarr_router.Archlint.Uses.{flatten_use}
use angzarr_router.Archlint.Syntax.{item_attrs, pieces_at, words, is_cfg_test, path_attr}
use angzarr_router.Archlint.Scanner.{
  rsplit_once, new_scanner, add_workspace_crate, add_manifest_edge, register, record_leaves,
  record_use, record_include,
}
use angzarr_router.Archlint.Collecting.{push_ref, push_leaves, scope_within, visit_all}
use angzarr_router.Archlint.Walking.{
  record_includes, collect_item, module_file, walk_items, walk_file, add_target,
}
use angzarr_router.Archlint.Resolving.{
  parent_of, join, continue_from, next_module, follow_alias, walk, enter_crate, is_crate,
  resolve_name, start_at, resolve_in, resolve_at, level_below, resolve,
}
use angzarr_router.Archlint.Finishing.{
  compare_component, compare_path, compare_scope, compare_edge, insert_edge, sort, dedup_behind,
  dedup, target_of, ref_edges, finish,
}
use angzarr_router.Archlint.Workspace.{
  underscored, is_lib, root_module, target_scope, lib_name, code_name, dependency_scope,
  known_crates, add_dependency, add_dependencies, add_workspace_crates, add_targets, add_package,
  add_packages, scan_packages, build_model,
}
use angzarr_router.Archlint.Running.{
  parse_onto, parse_args, print_edges, load, report_violations, report_rules, report_model,
  run_with, run, exit_code,
}

unfoldable pub linter : Unit {0}
unfolding lookup insert_ordered decimal strip_prefix split_once any_suffix segment_match_on
    segment_match any_tail segments_match pieces split matches is_internal covers accept_rule
    accept_rules parse expand_self hit breaks broken_by check_edges check unmatched_patterns
    unmatched_rules unmatched_from components join_path without_last parent_dir pop push
    normalise_onto normalise strip_root relative display_path flatten_use item_attrs pieces_at words
    is_cfg_test path_attr rsplit_once new_scanner add_workspace_crate add_manifest_edge register
    record_leaves record_use record_include push_ref push_leaves scope_within visit_all
    record_includes collect_item module_file walk_items walk_file add_target parent_of join
    continue_from next_module follow_alias walk enter_crate is_crate resolve_name start_at
    resolve_in resolve_at level_below resolve compare_component compare_path compare_scope
    compare_edge insert_edge sort dedup_behind dedup target_of ref_edges finish underscored is_lib
    root_module target_scope lib_name code_name dependency_scope known_crates add_dependency
    add_dependencies add_workspace_crates add_targets add_package add_packages scan_packages
    build_model parse_onto parse_args print_edges load report_violations report_rules report_model
    run_with run exit_code
linter = tt
