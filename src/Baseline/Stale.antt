-- ===== src/Baseline/Stale.antt =====
-- internal/baseline/baseline.go: Stale, the accepted fingerprints that no current finding has.
use solidify.Base.{keep, Text, Map, flag, index_by, sort_by, Bool, true, not, List, [], map}
use solidify.Issues.Issue.{Issue, Platform, fingerprint}

unfoldable pub stale : Platform → Map Bool → List Issue → List Text
stale p accepted current =
    let present = index_by (fingerprint p) (λ i. true) current [] in
    sort_by (λ k. k) (keep (λ k. not (flag k present)) (map (λ e. e.0) accepted))
