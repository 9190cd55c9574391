-- ===== src/Promote/Scanner.antt =====
-- commands/promote/scanner.py: the HelmReleases of a chart in the YAML files of a directory. Which
-- files there are and what their documents hold is given.
use lab_charts.Base.{
  ℕ, suc, Bool, true, false, not, ◌&&◌, Option, none, some, List, [], ◌∷◌, ◌++◌, keep, contains,
  drop, length, nat_eq, list_eq, option_eq, ◌==◌, sorted, text_leb, if◌then◌else◌, Text, text,
  starts_with, lower,
}
use lab_charts.Plumbing.Yaml.{Yaml, Entries, null, mapping, str_of, look, entries_of}
use lab_charts.Validate.Triggers.{last_name, stem_or, before_dot}
use lab_charts.Workspace.{path_of, split_slash}

pub record HelmReleaseMatch : Type 0 where
  pub path : Text
  pub doc_index : ℕ
  pub name : Text
  pub namespace : Option Text
  pub current_version : Option Text

unfoldable pub is_string : (Text → Bool) → Option Yaml → Bool
is_string test (some (Yaml.string t)) = test t
is_string test _ = false

unfoldable pub is_release_kind : Entries → Bool
unfolding is_string
is_release_kind es =
    is_string (λ t. t == text "HelmRelease") (look (text "kind") es)
    && is_string (starts_with (text "helm.toolkit.fluxcd.io/")) (look (text "apiVersion") es)

-- `is_helmrelease`
unfoldable pub is_helmrelease : Yaml → Bool
unfolding is_release_kind
is_helmrelease (mapping es) = is_release_kind es
is_helmrelease _ = false

unfoldable pub or_nothing : Option Entries → (Entries → Option Entries) → Option Entries
or_nothing none next = none
or_nothing (some es) next = next es

-- `.spec.chart.spec`, where each of these is a mapping
unfoldable pub chart_spec : Yaml → Option Entries
unfolding or_nothing
chart_spec doc = or_nothing (entries_of (some doc)) λ top.
    or_nothing (entries_of (look (text "spec") top)) λ spec.
      or_nothing (entries_of (look (text "chart") spec))
        λ chart. entries_of (look (text "spec") chart)

-- how a path is compared: by its parts
unfoldable pub parts_leb : List Text → List Text → Bool
parts_leb [] ys = true
parts_leb (x ∷ xs) [] = false
parts_leb (x ∷ xs) (y ∷ ys) = let rest = parts_leb xs ys in if x == y then rest else text_leb x y

unfoldable pub path_leb : Text → Text → Bool
unfolding parts_leb
path_leb a b = parts_leb (split_slash a) (split_slash b)

-- `PurePath.suffix`
unfoldable pub suffix : Text → Text
suffix path =
    let name = last_name (path_of path).names in drop (length (stem_or name (before_dot name))) name

-- `path.suffix.lower() in _YAML_SUFFIXES`
unfoldable pub is_yaml_file : Text → Bool
unfolding suffix
is_yaml_file path = contains (text ".yaml" ∷ text ".yml" ∷ []) (lower (suffix path))

-- what a file loads as: its documents, or what the YamlError says
pub data Loaded : Type 0 where
  documents : List Yaml → Loaded
  malformed : Text → Loaded

pub record Tree : Type 0 where
  pub exists : Bool
  pub is_file : Bool
  -- the files below a directory
  pub below : List Text
  pub load : Text → Loaded

-- a list of matches, or the message of a ChartManagerError
pub data Scan : Type 0 where
  found : List HelmReleaseMatch → Scan
  refused : Text → Scan

unfoldable pub metadata_of : Yaml → Option Entries
metadata_of (mapping es) = entries_of (look (text "metadata") es)
metadata_of _ = none

module _ (show_mapping : Entries → Text) where
  -- `str(value) if value is not None else None`
  unfoldable pub shown : Option Yaml → Option Text
  shown none = none
  shown (some null) = none
  shown (some v) = some (str_of show_mapping v)

  unfoldable pub fields_of : Option Entries → Option Text × Option Text
  unfolding shown
  fields_of none = (none, none)
  fields_of (some inner) = (shown (look (text "chart") inner), shown (look (text "version") inner))

  -- `_chart_fields`
  unfoldable pub chart_fields : Yaml → Option Text × Option Text
  unfolding fields_of
  chart_fields doc = fields_of (chart_spec doc)

  unfoldable pub shown_or_empty : Option Yaml → Text
  shown_or_empty none = []
  shown_or_empty (some v) = str_of show_mapping v

  unfoldable pub name_of : Option Entries → Text
  unfolding shown_or_empty
  name_of none = []
  name_of (some metadata) = shown_or_empty (look (text "name") metadata)

  unfoldable pub namespace_of : Option Entries → Option Text
  unfolding shown
  namespace_of none = none
  namespace_of (some metadata) = shown (look (text "namespace") metadata)

  unfoldable pub match_of : Text → ℕ → Yaml → HelmReleaseMatch
  unfolding chart_fields metadata_of name_of namespace_of
  match_of path index doc = record {
    path = path;
    doc_index = index;
    name = name_of (metadata_of doc);
    namespace = namespace_of (metadata_of doc);
    current_version = (chart_fields doc).1;
  }

  module _ (chart_name : Text) where
    unfoldable pub is_match : Yaml → Bool
    unfolding chart_fields is_helmrelease
    is_match doc = is_helmrelease doc && (chart_fields doc).0 == some chart_name

    -- the matches of one file, from the document with an index on
    unfoldable pub matches_from : Text → ℕ → List Yaml → List HelmReleaseMatch
    unfolding is_match match_of
    matches_from path index [] = []
    matches_from path index (doc ∷ docs) =
        let rest = matches_from path (suc index) docs in
        if is_match doc then match_of path index doc ∷ rest else rest

    unfoldable pub scan_file : Text → Loaded → Scan → Scan
    unfolding matches_from
    scan_file path (malformed error) rest =
        refused (text "failed to parse " ++ (path ++ (text ": " ++ error)))
    scan_file path (documents docs) (refused message) = refused message
    scan_file path (documents docs) (found later) = found (matches_from path 0 docs ++ later)

    unfoldable pub scan_files : Tree → List Text → Scan
    unfolding scan_file
    scan_files tree [] = found []
    scan_files tree (path ∷ paths) = scan_file path (tree.load path) (scan_files tree paths)

    -- `scan`
    unfoldable pub scan : Text → Tree → Scan
    unfolding scan_files is_yaml_file path_leb
    scan root tree =
        if not tree.exists
        then refused (text "scan path does not exist: " ++ root)
        else scan_files tree (
            if tree.is_file
            then keep is_yaml_file (root ∷ [])
            else sorted path_leb (keep is_yaml_file tree.below))
