-- ===== src/Publish/Select.antt =====
-- commands/publish/select.py: the charts that own a changed path. The names of the charts that there
-- are (`chart_names`) are read from the file system, and are given.
use lab_charts.Base.{
  Option, none, some, List, [], ◌∷◌, contains, add_once, nat_eq, list_eq, option_eq, ◌==◌, sorted,
  text_leb, strip, if◌then◌else◌, Text,
}
use lab_charts.Workspace.{PurePath, path_of, chart_name_from_repo_path}

module _ (charts_dir : PurePath) (current : List Text) where
  -- the chart that a line of the change set is about, where there is one
  unfoldable pub owner_of : Text → Option Text
  owner_of raw =
      if strip raw == [] then none else chart_name_from_repo_path charts_dir (path_of (strip raw))

  -- the set comprehension, one path at a time
  unfoldable pub add_owner : Option Text → List Text → List Text
  add_owner none names = names
  add_owner (some name) names = if contains current name then add_once name names else names

  unfoldable pub owners : List Text → List Text
  unfolding add_owner owner_of
  owners [] = []
  owners (raw ∷ rest) = add_owner (owner_of raw) (owners rest)

  unfoldable pub select : List Text → List Text
  unfolding owners
  select changes = sorted text_leb (owners changes)
