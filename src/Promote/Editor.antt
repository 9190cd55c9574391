-- ===== src/Promote/Editor.antt =====
-- commands/promote/editor.py: the version of a chart's HelmReleases, rewritten in a file's documents.
pub mod Rescan
use lab_charts.Base.{
  Bool, true, false, not, ◌&&◌, Option, none, some, List, map, nat_eq, list_eq, ◌==◌, if◌then◌else◌,
  Text, text,
}
use lab_charts.Plumbing.Yaml.{
  Yaml, Entries, null, string, mapping, str_of, look, put, modify, inside,
}
use lab_charts.Promote.Scanner.{is_helmrelease, chart_spec, is_string}

-- `inner["version"] = new_version`, in `.spec.chart.spec`
unfoldable pub write_version : Text → Yaml → Yaml
write_version version doc =
    inside
      (modify (text "spec") (
        inside (
          modify (text "chart")
            (inside (modify (text "spec") (inside (put (text "version") (string version))))))))
      doc

module _ (show_mapping : Entries → Text) (chart_name new_version : Text) where
  -- `str(inner.get("version"))`
  unfoldable pub version_text : Option Yaml → Text
  version_text none = text "None"
  version_text (some v) = str_of show_mapping v

  unfoldable pub needs_edit : Option Entries → Bool
  unfolding version_text is_string
  needs_edit none = false
  needs_edit (some inner) =
      is_string (λ t. t == chart_name) (look (text "chart") inner)
      && not (version_text (look (text "version") inner) == new_version)

  unfoldable pub edit_document : Yaml → Yaml
  unfolding needs_edit write_version
  edit_document doc =
      if is_helmrelease doc && needs_edit (chart_spec doc)
      then write_version new_version doc
      else doc

  -- `edit` of `set_version`
  unfoldable pub edit : List Yaml → List Yaml
  unfolding edit_document
  edit docs = map edit_document docs
