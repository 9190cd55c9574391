-- ===== src/Workspace/Tests.antt =====
-- A pattern and a path at concrete inputs.
use lab_charts.Base.{true, nat_eq, list_eq, ◌==◌, ◌≡◌, ◌↔◌, text}
use lab_charts.Workspace.{path_of, pattern_matches}
use lab_charts.Workspace.Matching.{IsCovered, pattern_matches-IsCovered}

pattern_matches-IsCovered_example :
    (pattern_matches (λ n s. n == s) (text "charts/**/app") (path_of (text "charts/a/b/app"))
      ≡ true)
    ↔ IsCovered (λ n s. n == s) (text "charts/**/app") (path_of (text "charts/a/b/app"))
pattern_matches-IsCovered_example =
    pattern_matches-IsCovered (λ n s. n == s) (text "charts/**/app")
      (path_of (text "charts/a/b/app"))
