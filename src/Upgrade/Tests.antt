-- ===== src/Upgrade/Tests.antt =====
-- A chart finalized at concrete inputs.
use lab_charts.Base.Strings.{join}
use lab_charts.Upgrade.Changelog.Entry.{is_plain, unbroken}
use lab_charts.Plumbing.SemVer.{parse_semver, show_version, is_digit, digits_value}
use lab_charts.Base.{
  true, some, [], ◌∷◌, ◌≡◌, refl, Text, text, list_beq, any, keep, sorted, contains, lower,
  is_space, show, join, all,
}
use lab_charts.Plumbing.Yaml.{Yaml, Entries, mapping, no_entries, entry, look}
use lab_charts.Upgrade.Changelog.{apply_changelog_entry}
use lab_charts.Upgrade.Models.{UpdateMetadata}
use lab_charts.Upgrade.Finalize.{
  done, missing, array, ChartFile, ChartFiles, FinalizeResult, loose_major, run,
}
use lab_charts.Upgrade.Finalize.Again.{unchanged, run-again}

abbrev dependency : Text → Yaml
dependency version = mapping (
    entry (text "name") (Yaml.string (text "kyverno"))
      (entry (text "version") (Yaml.string version) no_entries))

abbrev at_head : ChartFile
at_head = record {
  version = some (Yaml.string (text "0.1.9"));
  dependencies = array (dependency (text "3.1.0") ∷ []);
}

abbrev edited_files : ChartFiles
edited_files = record {
  chart = record {
    version = some (Yaml.string (text "0.1.9"));
    dependencies = array (dependency (text "3.2.0") ∷ []);
  };
  changelog = text "\n## 0.1.9\n\n- Start.\n";
}

abbrev finalized_files : ChartFiles
finalized_files = record {
  chart = record {
    version = some (Yaml.string (text "0.1.10"));
    dependencies = array (dependency (text "3.2.0") ∷ []);
  };
  changelog = text "## 0.1.10\n\n- kyverno: 3.1.0 -> 3.2.0\n\n## 0.1.9\n\n- Start.\n";
}

abbrev finalized_result : FinalizeResult
finalized_result = record {
  previous_version = text "0.1.9";
  version = text "0.1.10";
  changed = true;
}

abbrev kyverno_update : UpdateMetadata
kyverno_update = record {
  dependency = text "kyverno";
  current_version = text "3.1.0";
  new_version = text "3.2.0";
  manager = text "helmv3";
  datasource = text "helm";
  update_type = [];
}

abbrev no_text : Entries → Text
no_text es = []

first_run : run no_text at_head missing edited_files ≡ done (finalized_result, finalized_files)
unfolding run parse_semver text list_beq any keep sorted look contains lower show_version is_space
    show join
first_run = refl

run-again_example :
    run no_text at_head missing finalized_files ≡ done (unchanged finalized_result, finalized_files)
unfolding run parse_semver text list_beq any keep sorted look contains lower is_plain unbroken all
    is_space show_version show join
run-again_example =
    run-again no_text at_head missing edited_files (kyverno_update ∷ []) refl refl (refl, tt) refl

-- What stands before the first section is dropped when the section of a version is written again.
preamble_dropped :
    apply_changelog_entry
      (text "## 0.2.0\n\n# Changelog\n\n## 0.1.0\n")
      (text "## 0.2.0")
      (text "## 0.2.0\n\n")
    ≡ text "## 0.2.0\n\n## 0.1.0\n"
unfolding text apply_changelog_entry list_beq is_space
preamble_dropped = refl

preamble_kept :
    apply_changelog_entry (text "# Changelog\n\n## 0.1.0\n") (text "## 0.2.0") (text "## 0.2.0\n\n")
    ≡ text "## 0.2.0\n\n# Changelog\n\n## 0.1.0\n"
unfolding text apply_changelog_entry list_beq is_space
preamble_kept = refl

majors : loose_major (text "v1.19.3") ≡ some 1
unfolding loose_major text is_digit digits_value
majors = refl
