-- ===== src/Examples/Findings.antt =====
-- internal/analyzer/types.go: the identities of two findings.
use solidify.Base.{
  length, all, Text, text, text_eq, lookup, insert, listed, distinct, is_ok, to_lower, trim_left,
  trim_right, trim_space, replace_byte, has_prefix, without_prefix, trim_prefix, has_suffix,
  trim_suffix, ℕ, zero, suc, ◌+◌, ◌%◌, ◌≡◌, refl, false, ◌&&◌, List, [], ◌∷◌, map, ok, err,
}
use solidify.Ids.{rule_isp, check_isp_fat_interface, severity_warning}
use solidify.Paths.Clean.{clean, clean_parts, split_on, join, go_up}
use solidify.Paths.Normalized.{
  windows_style_path, past_root, normalized_windows_path, normalized_slash_path,
  normalized_relative_path, normalized_path, inside_analysis_root, portable_path, is_external_path,
  fingerprint_path,
}
use solidify.Issues.Issue.{Issue, Platform, issue_id, issue_path, fingerprint, issue_identity_key}
use solidify.Issues.Evidence.{
  cut, add_fields, parse_evidence_identity, field_of, first_identity_field, numeric_identity_value,
  identity_parts, derive_issue_identity,
}
use solidify.Issues.Finalize.{complete_identity, finalize_from, finalize_issues}
use solidify.Issues.Identity.{
  completed, completed_key, is_named, finalize_issues-is_ok, finalize_issues-stable,
}

-- A stand-in for the standard library: 64 digits that count the bytes, and no text is a number.
abbrev last_digit : Text → ℕ
last_digit s = 48 + length s % 10

abbrev zeros : ℕ → Text → Text
zeros zero s = s
zeros (suc n) s = 48 ∷ zeros n s

abbrev pub test_platform : Platform
test_platform = record { digest = λ s. zeros 63 (last_digit s ∷ []); is_float = λ s. false }

abbrev pub finding : Text → Issue
finding file = record {
  rule = rule_isp;
  check = check_isp_fat_interface;
  severity = severity_warning;
  pos = record { filename = file; offset = 40; line = 5; column = 1 };
  evidence = text "fat interface: interface=Store; methods=12";
  subject = [];
  identity = [];
  related = [];
  analysis_root = text "/work";
}

abbrev pub two_findings : List Issue
two_findings = finding (text "/work/a.go") ∷ finding (text "/work/store.go") ∷ []

-- What a run of FinalizeIssues unfolds.
unfoldable pub finalize_program : Unit {0}
unfolding finalize_issues finalize_from complete_identity derive_issue_identity identity_parts
    numeric_identity_value first_identity_field field_of parse_evidence_identity add_fields cut
    issue_identity_key issue_path issue_id fingerprint fingerprint_path is_external_path
    portable_path inside_analysis_root normalized_path normalized_relative_path
    normalized_slash_path normalized_windows_path past_root windows_style_path clean clean_parts
    split_on join go_up lookup insert listed text_eq has_prefix has_suffix trim_prefix trim_suffix
    without_prefix trim_space trim_left trim_right replace_byte to_lower distinct
finalize_program = tt

unfoldable pub finalized : List Issue
unfolding finalize_program
finalized = elim (finalize_issues test_platform two_findings (text "workspace")) [
  | ok out ↦ out
  | err _ ↦ []
]

pub finalized_all : finalize_issues test_platform two_findings (text "workspace") ≡ ok finalized
unfolding finalize_program finalized
finalized_all = refl

subjects : map (λ i. i.subject) finalized ≡ text "workspace.Store" ∷ text "workspace.Store" ∷ []
unfolding finalize_program finalized
subjects = refl

finalize_issues-is_ok_example :
    is_ok (finalize_issues test_platform two_findings (text "workspace")) ≡ (
      all (is_named test_platform (text "workspace")) two_findings
      && distinct (map (completed_key test_platform (text "workspace")) two_findings))
finalize_issues-is_ok_example = finalize_issues-is_ok test_platform (text "workspace") two_findings

finalize_issues-stable_example :
    (finalized ≡ map (completed test_platform (text "workspace")) two_findings)
    × (finalize_issues test_platform finalized (text "other") ≡ ok finalized)
finalize_issues-stable_example =
    finalize_issues-stable test_platform two_findings (text "workspace") (text "other")
      finalized_all
