-- ===== src/Config/Settings.antt =====
-- internal/analyzer/types.go: the configuration of an analysis and its defaults.
use solidify.Base.{Text, text, Map, ℤ, Bool, true, false, Option, none, List, [], ◌∷◌, pos}
use solidify.Ids.{CheckId, Profile, profile_all}

pub record Config : Type 0 where
  pub cache_dir : Text
  pub cache_enabled : Bool
  pub cache_diagnostics : Bool
  pub analysis_mode : Text
  pub include_tests : Bool
  pub tool_version : Text
  pub profile : Profile
  pub enabled_checks : List CheckId
  pub selected_checks : Option (Map Bool)
  pub max_methods_per_type : ℤ
  pub max_func_lines : ℤ
  pub max_func_params : ℤ
  pub max_fields_per_type : ℤ
  pub max_type_lines : ℤ
  pub max_exported_methods : ℤ
  pub max_func_complexity : ℤ
  pub max_type_complexity : ℤ
  pub max_fan_out : ℤ
  pub max_atfd : ℤ
  pub min_large_type_signals : ℤ
  pub min_tcc_percent : ℤ
  pub min_cohesion_methods : ℤ
  pub min_cohesion_fields : ℤ
  pub min_component_methods : ℤ
  pub min_import_cluster_methods : ℤ
  pub disabled_checks : List CheckId
  pub srp_orchestrator_suffixes : List Text
  pub max_type_switch_cases : ℤ
  pub ocp_min_dispatch_sites : ℤ
  pub ocp_min_shared_variants : ℤ
  pub ocp_dispatch_overlap_percent : ℤ
  pub ocp_min_concrete_parameter_methods : ℤ
  pub ocp_min_implementation_imports : ℤ
  pub ocp_min_parallel_functions : ℤ
  pub ocp_min_parallel_nodes : ℤ
  pub ocp_parallel_similarity_percent : ℤ
  pub ocp_discriminator_fields : List Text
  pub ocp_allow_dispatch_types : List Text
  pub ocp_allow_packages : List Text
  pub ocp_logic_packages : List Text
  pub ocp_implementation_packages : List Text
  pub ocp_composition_roots : List Text
  pub excluded_files : List Text
  pub max_interface_methods : ℤ
  pub isp_min_methods : ℤ
  pub isp_usage_ratio_percent : ℤ
  pub isp_wiring_aggregate_suffixes : List Text
  pub isp_execution_methods : List Text
  pub dip_allow_dependencies : List Text
  pub dip_composition_root_fields : ℤ
  pub dip_infra_error_packages : List Text
  pub dip_transport_types : List Text
  pub dip_domain_packages : List Text
  pub dip_data_bag_suffixes : List Text
  pub dip_detail_imports : List Text

-- internal/analyzer/dip_program.go
abbrev pub dip_builtin_detail_imports : List Text
dip_builtin_detail_imports =
    text "database/sql" ∷ text "database/sql/driver" ∷ text "net/http" ∷ text "os/exec" ∷ []

unfoldable pub default_config : Config
default_config = record {
  cache_dir = [];
  cache_enabled = true;
  cache_diagnostics = false;
  analysis_mode = text "auto";
  include_tests = false;
  tool_version = text "dev";
  profile = profile_all;
  enabled_checks = [];
  selected_checks = none;
  max_methods_per_type = pos 10;
  max_func_lines = pos 60;
  max_func_params = pos 8;
  max_fields_per_type = pos 10;
  max_type_lines = pos 250;
  max_exported_methods = pos 10;
  max_func_complexity = pos 15;
  max_type_complexity = pos 47;
  max_fan_out = pos 15;
  max_atfd = pos 5;
  min_large_type_signals = pos 4;
  min_tcc_percent = pos 33;
  min_cohesion_methods = pos 4;
  min_cohesion_fields = pos 2;
  min_component_methods = pos 2;
  min_import_cluster_methods = pos 3;
  disabled_checks = [];
  srp_orchestrator_suffixes = text "Handler" ∷ [];
  max_type_switch_cases = pos 4;
  ocp_min_dispatch_sites = pos 2;
  ocp_min_shared_variants = pos 2;
  ocp_dispatch_overlap_percent = pos 60;
  ocp_min_concrete_parameter_methods = pos 2;
  ocp_min_implementation_imports = pos 2;
  ocp_min_parallel_functions = pos 3;
  ocp_min_parallel_nodes = pos 20;
  ocp_parallel_similarity_percent = pos 90;
  ocp_discriminator_fields =
      text "Kind" ∷ text "Type" ∷ text "Status" ∷ text "Mode" ∷ text "Variant" ∷ [];
  ocp_allow_dispatch_types = [];
  ocp_allow_packages = [];
  ocp_logic_packages = [];
  ocp_implementation_packages = [];
  ocp_composition_roots = [];
  excluded_files = [];
  max_interface_methods = pos 8;
  isp_min_methods = pos 3;
  isp_usage_ratio_percent = pos 50;
  isp_wiring_aggregate_suffixes =
      text "Bundle" ∷ text "Deps" ∷ text "Dependencies" ∷ text "Stores" ∷ [];
  isp_execution_methods = [];
  dip_allow_dependencies = [];
  dip_composition_root_fields = pos 5;
  dip_infra_error_packages = [];
  dip_transport_types = [];
  dip_domain_packages = [];
  dip_data_bag_suffixes = text "Config" ∷ [];
  dip_detail_imports = dip_builtin_detail_imports;
}
