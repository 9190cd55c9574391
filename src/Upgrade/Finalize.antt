-- ===== src/Upgrade/Finalize.antt =====
-- commands/upgrade/finalize.py: the version and the changelog section that Renovate's edits of a
-- wrapper chart call for. Git, the files themselves and the JSON reader are left out: the Chart.yaml
-- at HEAD, the chart's files and the update data are given. Errors are told apart without their words.
pub mod Decisions
pub mod Headings
pub mod Again
use lab_charts.Base.{
  ℕ, suc, ◌+◌, Bool, true, false, not, ◌&&◌, ◌||◌, Option, none, some, List, [], ◌∷◌, ◌++◌, map,
  any, all, keep, contains, ltb, nat_eq, list_eq, ◌==◌, ◌≡◌, refl, sorted, text_leb, if◌then◌else◌,
  Text, text, lower,
}
use lab_charts.Plumbing.SemVer.{SemVer, is_digit, digits_value, show_version, parse_bare_version}
use lab_charts.Plumbing.Yaml.{Yaml, Entries, mapping, str_of, look}
use lab_charts.Upgrade.Changelog.{apply_changelog_entry, changelog_entry}
use lab_charts.Upgrade.Models.{UpdateMetadata, qualifies, update_beq}

-- the reasons for which an UpgradeError is raised
pub data UpgradeError : Type 0 where
  not_strict no_updates_array no_update_object no_dependency_array no_dependency_mapping :
      UpgradeError
  incomplete_update diverged_without_update : UpgradeError
  diverged : SemVer → UpgradeError

pub data Final (A : Type 0) : Type 0 where
  done : A → Final A
  failed : UpgradeError → Final A

module _ {A B : Type 0} where
  infixl 5 ◌>>=◌
  unfoldable pub ◌>>=◌ : Final A → (A → Final B) → Final B
  ◌>>=◌ (done a) f = f a
  ◌>>=◌ (failed x) f = failed x

  pub >>=-done :
      (m : Final A) (f : A → Final B) {b : B}
      → (m >>= f) ≡ done b
      → (a : A) × (m ≡ done a) × (f a ≡ done b)
  unfolding ◌>>=◌
  >>=-done (done a) f h = (a, refl, h)
  >>=-done (failed x) f h = absurd (cc)

-- a value that should be an array
pub data Array : Type 0 where
  missing not_array : Array
  array : List Yaml → Array

-- a Chart.yaml: its version and its dependencies
pub record ChartFile : Type 0 where
  pub version : Option Yaml
  pub dependencies : Array

pub record ChartFiles : Type 0 where
  pub chart : ChartFile
  -- the text of changelog.md, empty where there is none
  pub changelog : Text

unfoldable pub if_strict : Option SemVer → Final SemVer
if_strict none = failed not_strict
if_strict (some v) = done v

-- `wrapper_version`
unfoldable pub wrapper_version : Option Yaml → Final SemVer
unfolding if_strict parse_bare_version
wrapper_version (some (Yaml.string t)) = if_strict (parse_bare_version t)
wrapper_version _ = failed not_strict

-- `dict.fromkeys`: each update once, where it stands first
unfoldable pub unique : List UpdateMetadata → List UpdateMetadata
unfolding update_beq
unique [] = []
unique (u ∷ us) = u ∷ keep (λ v. not (update_beq u v)) (unique us)

module _ (show_mapping : Entries → Text) where
  unfoldable pub shown_or_empty : Option Yaml → Text
  shown_or_empty none = []
  shown_or_empty (some v) = str_of show_mapping v

  unfoldable pub updates_of : List Yaml → Final (List UpdateMetadata)
  unfolding shown_or_empty ◌>>=◌
  updates_of [] = done []
  updates_of (mapping item ∷ rest) = do
    others ← updates_of rest
    done (
        record {
          dependency = shown_or_empty (look (text "depName") item);
          current_version = shown_or_empty (look (text "currentValue") item);
          new_version = shown_or_empty (look (text "newValue") item);
          manager = shown_or_empty (look (text "manager") item);
          datasource = shown_or_empty (look (text "datasource") item);
          update_type = shown_or_empty (look (text "updateType") item);
        }
        ∷ others)
  updates_of (_ ∷ rest) = failed no_update_object

  -- `_updates_from_data`
  unfoldable pub updates_from_data : Array → Final (List UpdateMetadata)
  unfolding updates_of unique ◌>>=◌
  updates_from_data missing = done []
  updates_from_data not_array = failed no_updates_array
  updates_from_data (array items) = do us ← updates_of items; done (unique us)

-- a dict of versions by name
unfoldable pub put_version : Text → Text → List (Text × Text) → List (Text × Text)
put_version name version [] = (name, version) ∷ []
put_version name version ((n, v) ∷ rest) =
    let later = put_version name version rest in
    if n == name then (n, version) ∷ rest else (n, v) ∷ later

unfoldable pub note_dependency : Option Yaml → Option Yaml → List (Text × Text) → List (Text × Text)
unfolding put_version
note_dependency (some (Yaml.string name)) (some (Yaml.string version)) found =
    put_version name version found
note_dependency _ _ found = found

unfoldable pub dependencies_from : List Yaml → List (Text × Text) → Final (List (Text × Text))
unfolding note_dependency
dependencies_from [] found = done found
dependencies_from (mapping item ∷ rest) found =
    dependencies_from rest
      (note_dependency (look (text "name") item) (look (text "version") item) found)
dependencies_from (_ ∷ rest) found = failed no_dependency_mapping

-- `dependencies` of `_chart_dependency_diff`
unfoldable pub dependencies : Array → Final (List (Text × Text))
unfolding dependencies_from
dependencies missing = done []
dependencies not_array = failed no_dependency_array
dependencies (array items) = dependencies_from items []

unfoldable pub version_of : Text → List (Text × Text) → Option Text
version_of name [] = none
version_of name ((n, v) ∷ rest) =
    let later = version_of name rest in if n == name then some v else later

unfoldable pub change_of : Text → Option Text → Option Text → List UpdateMetadata
change_of name (some before) (some after) =
    if before == after
    then []
    else record {
      dependency = name;
      current_version = before;
      new_version = after;
      manager = text "helmv3";
      datasource = text "helm";
      update_type = [];
    }
      ∷ []
change_of name _ _ = []

unfoldable pub changes_of : List Text → (before after : List (Text × Text)) → List UpdateMetadata
unfolding change_of version_of
changes_of [] before after = []
changes_of (name ∷ rest) before after =
    change_of name (version_of name before) (version_of name after) ++ changes_of rest before after

-- `_chart_dependency_diff`
unfoldable pub chart_dependency_diff : (baseline current : Array) → Final (List UpdateMetadata)
unfolding dependencies changes_of ◌>>=◌
chart_dependency_diff baseline current = do
  before ← dependencies baseline
  after ← dependencies current
  done (changes_of (sorted text_leb (map (λ (d : Text × Text). d.0) before)) before after)

unfoldable pub starts_minor : Text → Bool
starts_minor (c ∷ (d ∷ rest)) = c == 46 && is_digit d
starts_minor _ = false

unfoldable pub digits_head : Text → Text
digits_head [] = []
digits_head (c ∷ cs) = let rest = digits_head cs in if is_digit c then c ∷ rest else []

unfoldable pub digits_tail : Text → Text
digits_tail [] = []
digits_tail (c ∷ cs) = let rest = digits_tail cs in if is_digit c then rest else c ∷ cs

-- `re.search` of a run of digits that is followed by a dot and a digit, from a place in the text on
unfoldable pub loose_from : (after_digit : Bool) → Text → Option ℕ
unfolding starts_minor digits_head digits_tail
loose_from after_digit [] = none
loose_from after_digit (c ∷ cs) =
    let later = loose_from (is_digit c) cs in
    if not after_digit && (is_digit c && starts_minor (digits_tail cs))
    then some (digits_value 0 (c ∷ digits_head cs))
    else later

-- `_loose_major`, of ASCII digits
unfoldable pub loose_major : Text → Option ℕ
unfolding loose_from
loose_major value = loose_from false value

unfoldable pub grows : Option ℕ → Option ℕ → Bool
grows (some old) (some new) = ltb old new
grows _ _ = false

-- `_is_major`
unfoldable pub is_major : UpdateMetadata → Bool
unfolding loose_major grows
is_major u =
    lower u.update_type == text "major"
    || grows (loose_major u.current_version) (loose_major u.new_version)

unfoldable pub version_beq : SemVer → SemVer → Bool
version_beq a b =
    a.major == b.major
    && (a.minor == b.minor
        && (a.patch == b.patch && (a.prerelease == b.prerelease && a.build == b.build)))

pub record Bump : Type 0 where
  pub previous : SemVer
  pub target : SemVer
  pub major : Bool
  pub updates : List UpdateMetadata

unfoldable pub is_incomplete : UpdateMetadata → Bool
is_incomplete u = u.dependency == [] || (u.current_version == [] || u.new_version == [])

unfoldable pub target_of : SemVer → Bool → SemVer
target_of baseline major =
    if major
    then record { major = suc baseline.major; minor = 0; patch = 0; prerelease = []; build = [] }
    else record {
      major = baseline.major;
      minor = baseline.minor;
      patch = suc baseline.patch;
      prerelease = [];
      build = [];
    }

unfoldable pub bump_for : SemVer → List UpdateMetadata → Bump
unfolding is_major target_of
bump_for baseline qualifying = record {
  previous = baseline;
  target = target_of baseline (any is_major qualifying);
  major = any is_major qualifying;
  updates = qualifying;
}

unfoldable pub decide_qualifying :
    (baseline current : SemVer) → List UpdateMetadata → Final (Option Bump)
unfolding bump_for version_beq
decide_qualifying baseline current [] =
    if version_beq current baseline then done none else failed diverged_without_update
decide_qualifying baseline current (u ∷ us) =
    let bump = bump_for baseline (u ∷ us) in
    if version_beq current baseline || version_beq current bump.target
    then done (some bump)
    else failed (diverged current)

-- `_decide`
unfoldable pub decide : (baseline current : SemVer) → List UpdateMetadata → Final (Option Bump)
unfolding decide_qualifying is_incomplete qualifies
decide baseline current updates =
    if any is_incomplete (keep qualifies updates)
    then failed incomplete_update
    else decide_qualifying baseline current (keep qualifies updates)

-- `FinalizeResult`, less the chart's name
pub record FinalizeResult : Type 0 where
  pub previous_version : Text
  pub version : Text
  pub changed : Bool

unfoldable pub heading_of : SemVer → Text
heading_of target = text "## " ++ show_version target

-- `_write`: whether each file changed, and what the files hold then
unfoldable pub write : SemVer → Bump → ChartFiles → Bool × Bool × ChartFiles
unfolding heading_of apply_changelog_entry changelog_entry version_beq
write current bump files =
    let chart_changed = not (version_beq current bump.target) in
    let new_changelog =
      apply_changelog_entry files.changelog (heading_of bump.target)
        (changelog_entry (heading_of bump.target) bump.updates) in
    (
      chart_changed,
      not (new_changelog == files.changelog),
      record {
        chart =
            if chart_changed
            then record files.chart { version = some (Yaml.string (show_version bump.target)) }
            else files.chart;
        changelog = new_changelog;
      },
    )

unfoldable pub conclude :
    (baseline current : SemVer) → Option Bump → ChartFiles → FinalizeResult × ChartFiles
unfolding write
conclude baseline current none files = (
  record {
    previous_version = show_version baseline;
    version = show_version current;
    changed = false;
  },
  files,
)
conclude baseline current (some bump) files =
    let written = write current bump files in
    (
      record {
        previous_version = show_version bump.previous;
        version = show_version bump.target;
        changed = written.0 || written.1;
      },
      written.2,
    )

unfoldable pub or_inferred :
    (baseline current : Array) → List UpdateMetadata → Final (List UpdateMetadata)
unfolding chart_dependency_diff
or_inferred baseline current [] = chart_dependency_diff baseline current
or_inferred baseline current (u ∷ us) = done (u ∷ us)

module _ (show_mapping : Entries → Text) (head : ChartFile) (data_updates : Array) where
  -- the updates that a run decides by
  unfoldable pub updates_for : Array → Final (List UpdateMetadata)
  unfolding updates_from_data or_inferred ◌>>=◌
  updates_for current =
      updates_from_data show_mapping data_updates >>= or_inferred head.dependencies current

  -- `run`
  unfoldable pub run : ChartFiles → Final (FinalizeResult × ChartFiles)
  unfolding updates_for decide conclude wrapper_version ◌>>=◌
  run files = do
    baseline ← wrapper_version head.version
    current ← wrapper_version files.chart.version
    updates ← updates_for files.chart.dependencies
    bump ← decide baseline current updates
    done (conclude baseline current bump files)
