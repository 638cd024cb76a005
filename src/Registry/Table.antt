-- ===== src/Registry/Table.antt =====
-- internal/analyzer/registry.go, the table of checks and its completion.
use Prim.Native.Nat.{bit_or}
use solidify.Base.{Text, text, Option, none, some, List, [], ◌∷◌, ◌++◌, map, if◌then◌else◌, listed}
use solidify.Registry.Check.{
  Scope, scope_package, scope_program, Maturity, unset, stable, experimental, SyntaxSupport,
  undeclared, equivalent, conservative, unavailable, Surface, surface_cli, surface_module_plugin,
  surface_go_plugin, Runner, run_srp_check, check_ocp_program, run_lsp_package_check,
  check_lsp_program, run_isp_check, run_dip_package_check, check_dip_program, Check,
}
use solidify.Ids.{
  CheckId, Rule, Severity, severity_note, severity_warning, rule_srp, rule_ocp, rule_lsp, rule_isp,
  rule_dip, check_srp_god_type, check_srp_low_cohesion_type, check_srp_large_type,
  check_srp_high_fan_out_type, check_srp_complex_function, check_srp_mixed_input_surface,
  check_srp_data_clump, check_srp_flag_argument, check_srp_mixed_import_clusters,
  check_isp_fat_interface, check_isp_usage_ratio, check_isp_consumer_role,
  check_isp_unused_dependency, check_isp_stub_implementation, check_ocp_type_dispatch,
  check_ocp_discriminator_dispatch, check_ocp_runtime_exhaustiveness, check_ocp_concrete_parameter,
  check_ocp_closed_factory, check_ocp_implementation_coupling, check_ocp_parallel_implementations,
  check_lsp_discarded_read, check_lsp_noop_deadline, check_isp_constructor_role,
  check_srp_transport_workflow, check_lsp_non_exact_eof, check_lsp_nil_embedded_interface,
  check_dip_concrete_dependency, check_dip_layer_import, check_dip_wiring_outside_root,
  check_dip_hidden_construction, check_dip_infra_error_leak, check_dip_transport_leak,
}

unfoldable pub check_help_uri : CheckId → Text
check_help_uri id =
    text "https://github.com/ExtroNovosib/solidify/blob/main/docs/checks"
    ++ text "/"
    ++ id
    ++ text ".md"

-- A literal of the table: the fields that completion sets start at their zero values.
abbrev entry : CheckId → Rule → Scope → Severity → Text → Option Runner → Option Runner → Check
entry id rule scope sev group package_runner program_runner = record {
  id = id;
  rule = rule;
  help_uri = check_help_uri id;
  scope = scope;
  maturity = unset;
  syntax = undeclared;
  surfaces = 0;
  default_sev = sev;
  runner_group = group;
  run_package = package_runner;
  run_program = program_runner;
}

abbrev pub check_table : List Check
check_table =
    entry check_srp_god_type rule_srp scope_package severity_warning (text "srp-package")
      (some run_srp_check) none
    ∷ entry check_srp_transport_workflow rule_srp scope_package severity_warning
        (text "srp-package") none none
    ∷ entry check_srp_low_cohesion_type rule_srp scope_package severity_warning (text "srp-package")
        none none
    ∷ entry check_srp_large_type rule_srp scope_package severity_warning (text "srp-package") none
        none
    ∷ entry check_srp_high_fan_out_type rule_srp scope_package severity_note (text "srp-package")
        none none
    ∷ entry check_srp_complex_function rule_srp scope_package severity_note (text "srp-package")
        none none
    ∷ entry check_srp_mixed_input_surface rule_srp scope_package severity_note (text "srp-package")
        none none
    ∷ entry check_srp_data_clump rule_srp scope_package severity_note (text "srp-package") none none
    ∷ entry check_srp_flag_argument rule_srp scope_package severity_note (text "srp-package") none
        none
    ∷ entry check_srp_mixed_import_clusters rule_srp scope_package severity_note
        (text "srp-package") none none
    ∷ entry check_ocp_type_dispatch rule_ocp scope_program severity_warning (text "ocp-program")
        none (some check_ocp_program)
    ∷ entry check_ocp_discriminator_dispatch rule_ocp scope_program severity_warning
        (text "ocp-program") none none
    ∷ entry check_ocp_runtime_exhaustiveness rule_ocp scope_program severity_note
        (text "ocp-program") none none
    ∷ entry check_ocp_concrete_parameter rule_ocp scope_program severity_note (text "ocp-program")
        none none
    ∷ entry check_ocp_closed_factory rule_ocp scope_program severity_warning (text "ocp-program")
        none none
    ∷ entry check_ocp_implementation_coupling rule_ocp scope_program severity_warning
        (text "ocp-program") none none
    ∷ entry check_ocp_parallel_implementations rule_ocp scope_program severity_note
        (text "ocp-program") none none
    ∷ entry check_lsp_non_exact_eof rule_lsp scope_package severity_warning (text "lsp-package")
        (some run_lsp_package_check) none
    ∷ entry check_lsp_discarded_read rule_lsp scope_package severity_warning (text "lsp-package")
        none none
    ∷ entry check_lsp_noop_deadline rule_lsp scope_package severity_warning (text "lsp-package")
        none none
    ∷ entry check_lsp_nil_embedded_interface rule_lsp scope_program severity_warning
        (text "lsp-program") none (some check_lsp_program)
    ∷ entry check_isp_fat_interface rule_isp scope_package severity_warning (text "isp-package")
        (some run_isp_check) none
    ∷ entry check_isp_constructor_role rule_isp scope_package severity_warning (text "isp-package")
        none none
    ∷ entry check_isp_usage_ratio rule_isp scope_package severity_warning (text "isp-package") none
        none
    ∷ entry check_isp_consumer_role rule_isp scope_package severity_warning (text "isp-package")
        none none
    ∷ entry check_isp_unused_dependency rule_isp scope_package severity_warning (text "isp-package")
        none none
    ∷ entry check_isp_stub_implementation rule_isp scope_package severity_warning
        (text "isp-package") none none
    ∷ entry check_dip_concrete_dependency rule_dip scope_package severity_warning
        (text "dip-package") (some run_dip_package_check) none
    ∷ entry check_dip_layer_import rule_dip scope_program severity_warning (text "dip-program") none
        (some check_dip_program)
    ∷ entry check_dip_wiring_outside_root rule_dip scope_program severity_warning
        (text "dip-program") none none
    ∷ entry check_dip_hidden_construction rule_dip scope_program severity_warning
        (text "dip-program") none none
    ∷ entry check_dip_infra_error_leak rule_dip scope_program severity_warning (text "dip-program")
        none none
    ∷ entry check_dip_transport_leak rule_dip scope_program severity_warning (text "dip-program")
        none none
    ∷ []

abbrev pub stable_ids : List CheckId
stable_ids =
    check_srp_large_type ∷ check_srp_data_clump ∷ check_ocp_type_dispatch ∷ check_isp_fat_interface
    ∷ check_isp_usage_ratio ∷ check_isp_stub_implementation ∷ check_dip_concrete_dependency ∷ []

abbrev pub equivalent_ids : List CheckId
equivalent_ids =
    check_srp_complex_function ∷ check_ocp_implementation_coupling ∷ check_isp_fat_interface
    ∷ check_dip_layer_import ∷ []

abbrev pub conservative_ids : List CheckId
conservative_ids =
    check_srp_large_type ∷ check_srp_high_fan_out_type ∷ check_srp_mixed_input_surface
    ∷ check_srp_data_clump ∷ check_srp_flag_argument ∷ check_srp_mixed_import_clusters
    ∷ check_ocp_type_dispatch ∷ check_ocp_runtime_exhaustiveness ∷ check_dip_concrete_dependency
    ∷ []

abbrev pub plugin_ids : List CheckId
plugin_ids =
    check_srp_god_type ∷ check_srp_low_cohesion_type ∷ check_srp_large_type
    ∷ check_srp_high_fan_out_type ∷ check_srp_complex_function ∷ check_srp_mixed_input_surface
    ∷ check_srp_data_clump ∷ check_srp_flag_argument ∷ check_srp_mixed_import_clusters
    ∷ check_lsp_non_exact_eof ∷ check_lsp_discarded_read ∷ check_lsp_noop_deadline
    ∷ check_isp_constructor_role ∷ check_srp_transport_workflow ∷ check_isp_fat_interface
    ∷ check_isp_usage_ratio ∷ check_isp_consumer_role ∷ check_isp_unused_dependency
    ∷ check_isp_stub_implementation ∷ check_dip_concrete_dependency ∷ []

abbrev pub calibration_checks : List CheckId
calibration_checks = check_isp_consumer_role ∷ check_isp_unused_dependency ∷ []

unfoldable pub maturity_for : CheckId → Maturity
unfolding listed
maturity_for id = if listed id stable_ids then stable else experimental

unfoldable pub syntax_for : CheckId → SyntaxSupport
unfolding listed
syntax_for id =
    if listed id equivalent_ids
    then equivalent
    else if listed id conservative_ids
    then conservative
    else unavailable

unfoldable pub surfaces_for : CheckId → Surface
unfolding listed
surfaces_for id =
    if listed id plugin_ids
    then bit_or surface_cli (bit_or surface_module_plugin surface_go_plugin)
    else surface_cli

-- The body of the loop over the table.
unfoldable pub complete_check : Check → Check
unfolding maturity_for syntax_for surfaces_for
complete_check c = record c {
  maturity = maturity_for c.id;
  syntax = syntax_for c.id;
  surfaces = surfaces_for c.id;
}

unfoldable pub complete_check_metadata : List Check → List Check
unfolding complete_check
complete_check_metadata checks = map complete_check checks

unfoldable pub check_registry : List Check
unfolding complete_check_metadata
check_registry = complete_check_metadata check_table
