-- ===== src/Registry/Check.antt =====
-- internal/analyzer/registry.go, the metadata of a check. The display strings Name and Doc are left
-- out; a runner is named, and what it reports is no part of the registry.
use Prim.Native.Nat.{bit_and}
use solidify.Base.{ℕ, Bool, not, Option, ◌==◌}
use solidify.Ids.{CheckId, Rule, Severity}
use solidify.Base.{Text}

pub data Scope : Type 0 where
  scope_package scope_program : Scope

-- `unset` is the empty string that a literal of the table starts with.
pub data Maturity : Type 0 where
  unset stable experimental : Maturity

-- `undeclared` is the empty string that a literal of the table starts with.
pub data SyntaxSupport : Type 0 where
  undeclared equivalent conservative unavailable : SyntaxSupport

-- A bit set of integrations (uint8).
abbrev pub Surface : Type 0
Surface = ℕ

abbrev pub surface_cli : Surface
surface_cli = 1

abbrev pub surface_module_plugin : Surface
surface_module_plugin = 2

abbrev pub surface_go_plugin : Surface
surface_go_plugin = 4

unfoldable pub supports : Surface → Surface → Bool
supports s surface = not (bit_and s surface == 0)

-- The functions that the table stores as group leaders' runners.
pub data Runner : Type 0 where
  run_srp_check check_ocp_program run_lsp_package_check check_lsp_program : Runner
  run_isp_check run_dip_package_check check_dip_program : Runner

pub record Check : Type 0 where
  pub id : CheckId
  pub rule : Rule
  pub help_uri : Text
  pub scope : Scope
  pub maturity : Maturity
  pub syntax : SyntaxSupport
  pub surfaces : Surface
  pub default_sev : Severity
  pub runner_group : Text
  pub run_package : Option Runner
  pub run_program : Option Runner
