-- ===== src/Validate/Triggers.antt =====
-- commands/validate/select.py, the triggers of one chart: the environments that a changed file of
-- the chart selects. `fnmatch.fnmatchcase` is given. A set is a list, each element once.
pub mod Laws
use lab_charts.Base.{
  ℕ, Bool, true, false, not, ◌&&◌, ◌||◌, Option, none, some, List, [], ◌∷◌, ◌++◌, map, any, all,
  keep, contains, add_once, nat_eq, list_eq, ◌==◌, if◌then◌else◌, Text, text,
}
use lab_charts.Workspace.{PurePath, as_posix}

pub data TriggerValue : Type 0 where
  match_by_basename all_environments : TriggerValue
  some_environments : List Text → TriggerValue

-- the parts of a ManifestValidationSpec that the selection reads; of the environments their names,
-- and of `unmatchedChanges` whether it is `all-environments`
pub record TriggerSpec : Type 0 where
  pub environments : List Text
  pub triggers : List (Text × TriggerValue)
  pub trigger_ignores : List Text
  pub all_unmatched : Bool

abbrev pub Trigger : Type 0
Trigger = Text × TriggerValue

-- DEFAULT_TRIGGERS
abbrev pub default_triggers : List Trigger
default_triggers =
    (text "values-ci.yaml", some_environments (text "ci" ∷ []))
    ∷ ((text "templates/**", all_environments)
        ∷ ((text "tests/**", some_environments (text "ci" ∷ []))
            ∷ ((text "files/**", all_environments)
                ∷ ((text "values.schema.json", all_environments)
                    ∷ ((text "Chart.lock", all_environments) ∷ [])))))

abbrev pub patterns_of : List Trigger → List Text
patterns_of triggers = map (λ (t : Trigger). t.0) triggers

-- the value under a pattern, or the one given
unfoldable pub value_of : Text → TriggerValue → List Trigger → TriggerValue
value_of pattern default [] = default
value_of pattern default ((p, v) ∷ rest) =
    let later = value_of pattern default rest in if p == pattern then v else later

-- `{**DEFAULT_TRIGGERS, **spec.triggers}`
unfoldable pub merged_triggers : List Trigger → List Trigger
unfolding value_of
merged_triggers authored =
    map (λ (t : Trigger). (t.0, value_of t.0 t.1 authored)) default_triggers
    ++ keep (λ (t : Trigger). not (contains (patterns_of default_triggers) t.0)) authored

-- what stands before the last dot
unfoldable pub after_head : ℕ → Option Text → Option Text
after_head c (some before) = some (c ∷ before)
after_head c none = if c == 46 then some [] else none

unfoldable pub before_dot : Text → Option Text
unfolding after_head
before_dot [] = none
before_dot (c ∷ cs) = after_head c (before_dot cs)

unfoldable pub stem_or : Text → Option Text → Text
stem_or name none = name
stem_or name (some before) = if any (λ c. not (c == 46)) before then before else name

unfoldable pub last_name : List Text → Text
last_name [] = []
last_name (x ∷ []) = x
last_name (x ∷ (y ∷ rest)) = last_name (y ∷ rest)

-- `PurePath.stem`
unfoldable pub stem : PurePath → Text
unfolding last_name stem_or before_dot
stem path = stem_or (last_name path.names) (before_dot (last_name path.names))

-- `_is_chart_wide`, with the name of the lifecycle file
unfoldable pub is_chart_wide : Text → PurePath → Bool
is_chart_wide lifecycle_filename relative = wide relative.names
  where
    wide : List Text → Bool
    wide [] = true
    wide (x ∷ xs) = contains (text "Chart.yaml" ∷ (lifecycle_filename ∷ (text "policies" ∷ []))) x

-- `selected` of one trigger
unfoldable pub environments_for : TriggerSpec → PurePath → TriggerValue → List Text
unfolding stem
environments_for spec relative match_by_basename =
    keep (λ env. env == stem relative) spec.environments
environments_for spec relative all_environments = spec.environments
environments_for spec relative (some_environments envs) = keep (contains spec.environments) envs

-- `envs |= selected`
unfoldable pub union : List Text → List Text → List Text
union [] ys = ys
union (x ∷ xs) ys = add_once x (union xs ys)

-- the locals `envs` and `matched`
pub record Triggered : Type 0 where
  pub envs : List Text
  pub matched : Bool

module _ (fnmatchcase : (name pattern : Text) → Bool) (spec : TriggerSpec)
    (relative : PurePath) where
  unfoldable pub counts : Trigger → Bool
  unfolding environments_for
  counts (pattern, value) =
      contains (patterns_of spec.triggers) pattern
      || not (environments_for spec relative value == [])

  unfoldable pub trigger_step : Trigger → Triggered → Triggered
  unfolding counts environments_for union
  trigger_step (pattern, value) found =
      if not (fnmatchcase (as_posix relative) pattern) then found else record {
        envs = union (environments_for spec relative value) found.envs;
        matched = found.matched || counts (pattern, value);
      }

  unfoldable pub trigger_all : List Trigger → Triggered → Triggered
  unfolding trigger_step
  trigger_all [] found = found
  trigger_all (t ∷ rest) found = trigger_all rest (trigger_step t found)

  unfoldable pub with_unmatched : Triggered → Triggered
  with_unmatched found =
      if not found.matched && spec.all_unmatched
      then record { envs = spec.environments; matched = false }
      else found

  -- `_triggered`
  unfoldable pub triggered : Triggered
  unfolding with_unmatched trigger_all merged_triggers
  triggered =
      with_unmatched
        (trigger_all (merged_triggers spec.triggers) (record { envs = []; matched = false }))
