-- ===== src/Ids.antt =====
-- internal/analyzer/types.go: check IDs, rule families, severities and profiles, all of them strings.
use solidify.Base.{Text, text}

abbrev pub CheckId : Type 0
CheckId = Text

abbrev pub Rule : Type 0
Rule = Text

abbrev pub Severity : Type 0
Severity = Text

abbrev pub Profile : Type 0
Profile = Text

abbrev pub severity_note : Severity
severity_note = text "note"

abbrev pub severity_warning : Severity
severity_warning = text "warning"

abbrev pub severity_error : Severity
severity_error = text "error"

abbrev pub profile_stable : Profile
profile_stable = text "stable"

abbrev pub profile_all : Profile
profile_all = text "all"

abbrev pub profile_calibration : Profile
profile_calibration = text "calibration"

abbrev pub rule_srp : Rule
rule_srp = text "SOLID-S"

abbrev pub rule_ocp : Rule
rule_ocp = text "SOLID-O"

abbrev pub rule_lsp : Rule
rule_lsp = text "SOLID-L"

abbrev pub rule_isp : Rule
rule_isp = text "SOLID-I"

abbrev pub rule_dip : Rule
rule_dip = text "SOLID-D"

abbrev pub check_srp_god_type : CheckId
check_srp_god_type = text "SOLID-S/god-type"

abbrev pub check_srp_low_cohesion_type : CheckId
check_srp_low_cohesion_type = text "SOLID-S/low-cohesion-type"

abbrev pub check_srp_large_type : CheckId
check_srp_large_type = text "SOLID-S/large-type"

abbrev pub check_srp_high_fan_out_type : CheckId
check_srp_high_fan_out_type = text "SOLID-S/high-fan-out-type"

abbrev pub check_srp_complex_function : CheckId
check_srp_complex_function = text "SOLID-S/complex-function"

abbrev pub check_srp_mixed_input_surface : CheckId
check_srp_mixed_input_surface = text "SOLID-S/mixed-input-surface"

abbrev pub check_srp_data_clump : CheckId
check_srp_data_clump = text "SOLID-S/data-clump"

abbrev pub check_srp_flag_argument : CheckId
check_srp_flag_argument = text "SOLID-S/flag-argument"

abbrev pub check_srp_mixed_import_clusters : CheckId
check_srp_mixed_import_clusters = text "SOLID-S/mixed-import-clusters"

abbrev pub check_isp_fat_interface : CheckId
check_isp_fat_interface = text "SOLID-I/fat-interface"

abbrev pub check_isp_usage_ratio : CheckId
check_isp_usage_ratio = text "SOLID-I/usage-ratio"

abbrev pub check_isp_consumer_role : CheckId
check_isp_consumer_role = text "SOLID-I/consumer-role"

abbrev pub check_isp_unused_dependency : CheckId
check_isp_unused_dependency = text "SOLID-I/unused-dependency"

abbrev pub check_isp_stub_implementation : CheckId
check_isp_stub_implementation = text "SOLID-I/stub-implementation"

abbrev pub check_ocp_type_dispatch : CheckId
check_ocp_type_dispatch = text "SOLID-O/type-dispatch"

abbrev pub check_ocp_discriminator_dispatch : CheckId
check_ocp_discriminator_dispatch = text "SOLID-O/discriminator-dispatch"

abbrev pub check_ocp_runtime_exhaustiveness : CheckId
check_ocp_runtime_exhaustiveness = text "SOLID-O/runtime-exhaustiveness"

abbrev pub check_ocp_concrete_parameter : CheckId
check_ocp_concrete_parameter = text "SOLID-O/concrete-parameter"

abbrev pub check_ocp_closed_factory : CheckId
check_ocp_closed_factory = text "SOLID-O/closed-factory"

abbrev pub check_ocp_implementation_coupling : CheckId
check_ocp_implementation_coupling = text "SOLID-O/implementation-coupling"

abbrev pub check_ocp_parallel_implementations : CheckId
check_ocp_parallel_implementations = text "SOLID-O/parallel-implementations"

abbrev pub check_lsp_discarded_read : CheckId
check_lsp_discarded_read = text "SOLID-L/discarded-read"

abbrev pub check_lsp_noop_deadline : CheckId
check_lsp_noop_deadline = text "SOLID-L/noop-deadline"

abbrev pub check_isp_constructor_role : CheckId
check_isp_constructor_role = text "SOLID-I/constructor-role"

abbrev pub check_srp_transport_workflow : CheckId
check_srp_transport_workflow = text "SOLID-S/transport-workflow"

abbrev pub check_lsp_non_exact_eof : CheckId
check_lsp_non_exact_eof = text "SOLID-L/non-exact-eof"

abbrev pub check_lsp_nil_embedded_interface : CheckId
check_lsp_nil_embedded_interface = text "SOLID-L/nil-embedded-interface"

abbrev pub check_dip_concrete_dependency : CheckId
check_dip_concrete_dependency = text "SOLID-D/concrete-dependency"

abbrev pub check_dip_layer_import : CheckId
check_dip_layer_import = text "SOLID-D/layer-import"

abbrev pub check_dip_wiring_outside_root : CheckId
check_dip_wiring_outside_root = text "SOLID-D/wiring-outside-root"

abbrev pub check_dip_hidden_construction : CheckId
check_dip_hidden_construction = text "SOLID-D/hidden-construction"

abbrev pub check_dip_infra_error_leak : CheckId
check_dip_infra_error_leak = text "SOLID-D/infra-error-leak"

abbrev pub check_dip_transport_leak : CheckId
check_dip_transport_leak = text "SOLID-D/transport-leak"
