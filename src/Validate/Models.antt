-- ===== src/Validate/Models.antt =====
-- commands/validate/models.py: what validating returns, with the reports of kubeconform and kyverno that
-- it reads (integrations/kubeconform/runner.py, integrations/kyverno.py).
pub mod Outcomes
use lab_charts.Base.{
  ℕ, Bool, true, false, not, ◌||◌, Option, none, some, List, [], ◌∷◌, any, keep, if◌then◌else◌,
  Text,
}
use lab_charts.Plumbing.ExitCodes.{Outcome}

pub data CheckName : Type 0 where
  render schema policy : CheckName

pub data Status : Type 0 where
  passed failed skipped error : Status

-- FAILING
unfoldable pub is_failing : Status → Bool
is_failing failed = true
is_failing error = true
is_failing _ = false

unfoldable pub is_failed : Status → Bool
is_failed failed = true
is_failed _ = false

unfoldable pub is_error : Status → Bool
is_error error = true
is_error _ = false

pub record CheckResult : Type 0 where
  pub status : Status
  pub detail : Text
  pub elapsed : Option ℕ

abbrev pub Checks : Type 0
Checks = List (CheckName × CheckResult)

pub record Row : Type 0 where
  pub chart : Text
  pub env : Text
  pub release : Text
  pub namespace : Text
  pub checks : Checks

pub record Diagnostics : Type 0 where
  pub requested_charts : List Text
  pub requested_envs : List Text
  pub ignored_changes : List Text
  pub unmatched_changes : List Text
  pub rows_filtered_out : ℕ
  pub charts_unvalidated : ℕ

pub record ValidateOutcome : Type 0 where
  pub rows : List Row
  pub spec_errors : List Text
  pub warnings : List Text
  pub diagnostics : Diagnostics

-- a status that some check of a row has
unfoldable pub has_status : (Status → Bool) → Row → Bool
has_status test row = any (λ (c : CheckName × CheckResult). test c.1.status) row.checks

unfoldable pub outcome_for : List Text → (broken failing : Bool) → Outcome
outcome_for (e ∷ es) broken failing = Outcome.spec
outcome_for [] broken failing =
    if broken then Outcome.tool else if failing then Outcome.failed else Outcome.success

-- `ValidateOutcome.outcome`
unfoldable pub outcome : ValidateOutcome → Outcome
unfolding outcome_for has_status
outcome v =
    outcome_for v.spec_errors (any (has_status is_error) v.rows)
      (any (has_status is_failing) v.rows)

pub data ResourceStatus : Type 0 where
  valid invalid load_error left_out : ResourceStatus

pub record ResourceResult : Type 0 where
  pub filename : Text
  pub kind : Text
  pub name : Text
  pub status : ResourceStatus
  pub msg : Option Text

unfoldable pub is_load_error : ResourceStatus → Bool
is_load_error load_error = true
is_load_error _ = false

unfoldable pub is_invalid : ResourceStatus → Bool
is_invalid invalid = true
is_invalid load_error = true
is_invalid _ = false

pub data PolicyStatus : Type 0 where
  pass fail warn skip broke : PolicyStatus

pub record PolicyResult : Type 0 where
  pub policy_name : Text
  pub rule : Text
  pub resource_kind : Text
  pub resource_name : Text
  pub status : PolicyStatus
  pub message : Option Text

unfoldable pub fails_policy : PolicyStatus → Bool
fails_policy fail = true
fails_policy broke = true
fails_policy _ = false

unfoldable pub warns : PolicyStatus → Bool
warns warn = true
warns _ = false
