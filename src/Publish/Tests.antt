-- ===== src/Publish/Tests.antt =====
-- A change set at a concrete input.
use lab_charts.Base.{
  List, [], ◌∷◌, ◌≡◌, refl, Text, text, sorted, list_beq, strip, is_space, starts_with, keep,
  contains, add_once,
}
use lab_charts.Workspace.{path_of, chart_name_from_repo_path, parts, split_slash}
use lab_charts.Publish.Select.{select}

abbrev changed : List Text
changed = text "charts/app/values.yaml" ∷ text "README.md" ∷ []

abbrev known : List Text
known = text "app" ∷ text "db" ∷ []

selected : select (path_of (text "charts")) known changed ≡ text "app" ∷ []
unfolding select sorted list_beq strip text is_space chart_name_from_repo_path parts path_of
    starts_with keep split_slash contains add_once
selected = refl
