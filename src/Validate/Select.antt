-- ===== src/Validate/Select.antt =====
-- commands/validate/select.py, `_reasons_for`: why changed files select a chart in an environment, and
-- which of them are ignored or match no trigger. The index of Helm dependents and
-- `fnmatch.fnmatchcase` are given. A path is named by its POSIX text.
pub mod Noted
pub mod Rows
use lab_charts.Base.{
  ℕ, suc, Bool, true, false, not, ◌&&◌, ◌||◌, Option, none, some, List, [], ◌∷◌, ◌++◌, map, any,
  keep, contains, distinct_of, take, drop, length, nat_eq, list_eq, pair_eq, ◌==◌, sorted, text_leb,
  if◌then◌else◌, Text, text,
}
use lab_charts.Charts.Result.{Key}
use lab_charts.Workspace.{
  PurePath, path_of, parts, as_posix, chart_name_from_repo_path, pattern_matches,
}
use lab_charts.Validate.Triggers.{TriggerSpec, Triggered, is_chart_wide, triggered}

pub data ReasonCode : Type 0 where
  validation_trigger helm_dependent repository_policy validation_engine : ReasonCode

pub record Reason : Type 0 where
  pub code : ReasonCode
  pub changed_file : Text
  pub detail : Text

-- the parts of a RepositoryWorkspace that the selection reads
pub record RowSource : Type 0 where
  pub charts_dir : PurePath
  pub policies_dir : PurePath
  pub fanout_validation : List Text
  -- `build_helm_dependency_index`: the charts that depend on a chart
  pub dependents : Text → List Text
  pub fnmatchcase : (name pattern : Text) → Bool

-- WORKSPACE_FILE, SCHEMA_LOCK_FILE and LIFECYCLE_FILENAME
abbrev pub marker : Text
marker = text ".chart-manager/workspace.yaml"

abbrev pub schema_lock_file : Text
schema_lock_file = text ".chart-manager/schemas.lock.yaml"

abbrev pub lifecycle_filename : Text
lifecycle_filename = text "chart-lifecycle.yaml"

-- the reasons of one row, each under the changed file that it is for
abbrev pub Files : Type 0
Files = List (Text × Reason)

abbrev pub ByFile : Type 0
ByFile = List (Key × Files)

unfoldable pub put_file : Text → Reason → Files → Files
put_file raw reason [] = (raw, reason) ∷ []
put_file raw reason ((r, old) ∷ rest) =
    let later = put_file raw reason rest in
    if r == raw then (r, reason) ∷ rest else (r, old) ∷ later

-- `by_file.setdefault((chart, env), {})[raw] = reason`
unfoldable pub put_reason : Key → Text → Reason → ByFile → ByFile
unfolding put_file
put_reason key raw reason [] = (key, (raw, reason) ∷ []) ∷ []
put_reason key raw reason ((k, files) ∷ rest) =
    let later = put_reason key raw reason rest in
    if k == key then (k, put_file raw reason files) ∷ rest else (k, files) ∷ later

-- `select_envs`
unfoldable pub select_envs : Text → List Text → Text → Reason → ByFile → ByFile
unfolding put_reason
select_envs chart [] raw reason by_file = by_file
select_envs chart (env ∷ rest) raw reason by_file =
    select_envs chart rest raw reason (put_reason (chart, env) raw reason by_file)

-- the charts with validation enabled, by name
abbrev pub Specs : Type 0
Specs = List (Text × TriggerSpec)

unfoldable pub find_spec : Text → Specs → Option TriggerSpec
find_spec chart [] = none
find_spec chart ((name, spec) ∷ rest) =
    let later = find_spec chart rest in if name == chart then some spec else later

-- the locals of `_reasons_for`
pub record Examined : Type 0 where
  pub by_file : ByFile
  pub ignored : List Text
  pub unmatched : List Text
  pub ignored_warnings : List Text
  pub unmatched_warnings : List Text
  pub fanout : Files

pub record RowReasons : Type 0 where
  pub reasons : List (Key × List Reason)
  pub ignored : List Text
  pub unmatched : List Text
  pub warnings : List Text

unfoldable pub reason_for : ReasonCode → Text → Text → Reason
reason_for code raw detail = record {
  code = code;
  changed_file = as_posix (path_of raw);
  detail = detail;
}

unfoldable pub behavior : Bool → Text
behavior all_unmatched =
    if all_unmatched
    then text "unmatchedChanges=all-environments selected all environments"
    else text "no environments selected; add a trigger or triggerIgnores entry, "
      ++ text "or set unmatchedChanges=all-environments"

module _ (w : RowSource) (specs : Specs) where
  -- `every_env`, of what `find_spec` gives for the chart
  unfoldable pub every_env : Text → Option TriggerSpec → Text → ReasonCode → Text → ByFile → ByFile
  unfolding select_envs reason_for
  every_env chart none raw code detail by_file = by_file
  every_env chart (some spec) raw code detail by_file =
      select_envs chart spec.environments raw (reason_for code raw detail) by_file

  unfoldable pub fanout_patterns : List Text
  fanout_patterns =
      w.fanout_validation ++ (as_posix w.policies_dir ∷ (schema_lock_file ∷ (marker ∷ [])))

  -- a change that validates every environment
  unfoldable pub fanout_reason : Text → Reason
  unfolding reason_for
  fanout_reason raw =
      if parts (path_of raw) == parts (path_of marker)
        || take (length (parts w.policies_dir)) (parts (path_of raw)) == parts w.policies_dir
      then reason_for repository_policy raw
          (text "repository policy changes validate every configured environment")
      else reason_for validation_engine raw
          (text "validation implementation changes validate every configured environment")

  unfoldable pub note_dependents : Text → List Text → Text → ByFile → ByFile
  unfolding every_env find_spec
  note_dependents chart [] raw by_file = by_file
  note_dependents chart (dependent ∷ rest) raw by_file = note_dependents chart rest raw (
      every_env dependent (find_spec dependent specs) raw helm_dependent
        (dependent ++ (text " declares a Helm dependency on " ++ chart)) by_file)

  abbrev triggered_detail : Text → Text
  triggered_detail chart = text "authored validation triggers selected " ++ chart

  unfoldable pub note_unmatched : TriggerSpec → Text → Bool → Examined → Examined
  unfolding behavior
  note_unmatched spec raw matched seen = if matched then seen else record seen {
    unmatched = seen.unmatched ++ raw ∷ [];
    unmatched_warnings =
        seen.unmatched_warnings
        ++ (text "changed chart file matches no trigger: "
            ++ (raw ++ (text " (" ++ (behavior spec.all_unmatched ++ text ")"))))
          ∷ [];
  }

  -- the environments that the triggers select
  unfoldable pub note_triggered : Text → TriggerSpec → Text → Triggered → Examined → Examined
  unfolding note_unmatched select_envs reason_for
  note_triggered chart spec raw found seen =
      let noted = note_unmatched spec raw found.matched seen in
      record noted {
        by_file =
            select_envs chart found.envs raw
              (reason_for validation_trigger raw (triggered_detail chart)) noted.by_file;
      }

  -- a file that is not of the whole chart
  unfoldable pub note_file : Text → Option TriggerSpec → PurePath → Text → Examined → Examined
  unfolding note_triggered triggered
  note_file chart none relative raw seen = seen
  note_file chart (some spec) relative raw seen =
      if any (λ p. w.fnmatchcase (as_posix relative) p) spec.trigger_ignores
      then record seen {
        ignored = seen.ignored ++ raw ∷ [];
        ignored_warnings =
            seen.ignored_warnings
            ++ (text "changed chart file explicitly ignored by triggerIgnores: " ++ raw) ∷ [];
      }
      else note_triggered chart spec raw (triggered w.fnmatchcase spec relative) seen

  -- a file of a chart, after its dependents
  unfoldable pub note_chart : Text → Option TriggerSpec → PurePath → Text → Examined → Examined
  unfolding note_file every_env is_chart_wide
  note_chart chart spec relative raw seen =
      if is_chart_wide lifecycle_filename relative
      then record seen {
        by_file = every_env chart spec raw validation_trigger (triggered_detail chart) seen.by_file;
      }
      else note_file chart spec relative raw seen

  unfoldable pub is_unknown : Option TriggerSpec → Bool
  is_unknown none = true
  is_unknown (some spec) = false

  unfoldable pub note_owned : Text → Option TriggerSpec → PurePath → Text → Examined → Examined
  unfolding note_chart note_dependents is_unknown
  note_owned chart spec relative raw seen =
      if relative.names == lifecycle_filename ∷ [] && is_unknown spec
      then seen
      else note_chart chart spec relative raw
          (record seen { by_file = note_dependents chart (w.dependents chart) raw seen.by_file })

  unfoldable pub relative_to_chart : Text → PurePath
  relative_to_chart raw = record {
    root = [];
    names = drop (suc (length (parts w.charts_dir))) (parts (path_of raw));
  }

  unfoldable pub note_owner : Option Text → Text → Examined → Examined
  unfolding note_owned find_spec relative_to_chart
  note_owner none raw seen = seen
  note_owner (some chart) raw seen =
      note_owned chart (find_spec chart specs) (relative_to_chart raw) raw seen

  -- one changed file
  unfoldable pub examine : Text → Examined → Examined
  unfolding note_owner fanout_reason fanout_patterns
  examine raw seen =
      if any (λ pattern. pattern_matches w.fnmatchcase pattern (path_of raw)) fanout_patterns
      then record seen { fanout = seen.fanout ++ (raw, fanout_reason raw) ∷ [] }
      else note_owner (chart_name_from_repo_path w.charts_dir (path_of raw)) raw seen

  unfoldable pub examine_all : List Text → Examined → Examined
  unfolding examine
  examine_all [] seen = seen
  examine_all (raw ∷ rest) seen = examine_all rest (examine raw seen)

  unfoldable pub fanout_charts : Specs → Text → Reason → ByFile → ByFile
  unfolding select_envs
  fanout_charts [] raw reason by_file = by_file
  fanout_charts ((name, spec) ∷ rest) raw reason by_file =
      fanout_charts rest raw reason (select_envs name spec.environments raw reason by_file)

  unfoldable pub fanout_all : Files → ByFile → ByFile
  unfolding fanout_charts
  fanout_all [] by_file = by_file
  fanout_all ((raw, reason) ∷ rest) by_file =
      fanout_all rest (fanout_charts specs raw reason by_file)

  unfoldable pub sorted_raws : List Text → List Text
  sorted_raws changes = sorted text_leb (distinct_of (keep (λ raw. not (raw == [])) changes))

  unfoldable pub in_file_order : Key × Files → Key × List Reason
  in_file_order (key, files) =
      (key, map (λ (f : Text × Reason). f.1) (sorted (λ f g. text_leb f.0 g.0) files))

  abbrev pub nothing_seen : Examined
  nothing_seen = record {
    by_file = [];
    ignored = [];
    unmatched = [];
    ignored_warnings = [];
    unmatched_warnings = [];
    fanout = [];
  }

  -- `_reasons_for`
  unfoldable pub reasons_for : List Text → RowReasons
  unfolding examine_all fanout_all sorted_raws in_file_order
  reasons_for changes =
      let seen = examine_all (sorted_raws changes) nothing_seen in
      record {
        reasons = map in_file_order (fanout_all seen.fanout seen.by_file);
        ignored = seen.ignored;
        unmatched = seen.unmatched;
        warnings = seen.ignored_warnings ++ seen.unmatched_warnings;
      }
