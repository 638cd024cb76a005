-- ===== src/Issues/Issue.antt =====
-- internal/analyzer/types.go: a finding. Its end, message, metrics, symbol groups and suggested fixes
-- only reach the renderers, and are left out.
use solidify.Base.{Text, text, ℕ, Bool, List, [], ◌∷◌, ◌++◌}
use solidify.Ids.{CheckId, Rule, Severity}
use solidify.Paths.Normalized.{portable_path, fingerprint_path}

-- token.Position
pub record Position : Type 0 where
  pub filename : Text
  pub offset : ℕ
  pub line : ℕ
  pub column : ℕ

pub record Issue : Type 0 where
  pub rule : Rule
  pub check : CheckId
  pub severity : Severity
  pub pos : Position
  pub evidence : Text
  pub subject : Text
  pub identity : Text
  pub related : List Position
  pub analysis_root : Text

-- What the program takes from the standard library's SHA-256 and number parser: the digest of a text
-- in hexadecimal digits, and whether a text is a number.
pub record Platform : Type 0 where
  pub digest : Text → Text
  pub is_float : Text → Bool

abbrev or_rule : CheckId → Rule → Text
or_rule [] rule = rule
or_rule check rule = check

unfoldable pub issue_id : Issue → Text
issue_id i = or_rule i.check i.rule

unfoldable pub issue_path : Issue → Text
issue_path i = portable_path i.analysis_root i.pos.filename

abbrev pub nul : Text
nul = 0 ∷ []

unfoldable pub fingerprint : Platform → Issue → Text
fingerprint p i = p.digest (
    text "solidlint/v4"
    ++ (nul
        ++ (issue_id i
            ++ (nul
                ++ (fingerprint_path p.digest i.analysis_root i.pos.filename
                    ++ (nul ++ (i.subject ++ (nul ++ i.identity))))))))

-- internal/analyzer/run.go: issueIdentityKey, which FinalizeIssues writes out.
unfoldable pub issue_identity_key : Issue → Text
issue_identity_key i =
    issue_id i ++ (nul ++ (issue_path i ++ (nul ++ (i.subject ++ (nul ++ i.identity)))))
