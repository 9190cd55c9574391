-- ===== src/Promote/Status.antt =====
-- integrations/kubectl.py: what the promotion stages read of a HelmRelease and of its workloads.
-- Times are natural numbers of milliseconds.
use lab_charts.Base.{
  ℕ, Bool, Option, none, some, List, [], ◌∷◌, nat_eq, list_eq, ◌==◌, if◌then◌else◌, Text, text,
}

pub record HelmReleaseRef : Type 0 where
  pub name : Text
  pub namespace : Text
  pub api_version : Text
  pub release_name : Text
  pub storage_namespace : Text
  pub target_namespace : Text

pub record ConditionSnapshot : Type 0 where
  pub type : Text
  pub status : Text
  pub reason : Text
  pub message : Text
  pub last_transition_time : Option ℕ

pub record HelmReleaseStatus : Type 0 where
  pub ref : HelmReleaseRef
  pub observed_at : ℕ
  pub generation : ℕ
  pub observed_generation : ℕ
  pub resource_version : Text
  pub suspended : Bool
  pub desired_chart_name : Option Text
  pub desired_chart_version : Option Text
  pub last_applied_revision : Option Text
  pub history_chart_version : Option Text
  pub conditions : List ConditionSnapshot

-- the loop of `HelmReleaseStatus.condition`
unfoldable pub find_condition : Text → List ConditionSnapshot → Option ConditionSnapshot
find_condition type [] = none
find_condition type (c ∷ cs) = if c.type == type then some c else find_condition type cs

unfoldable pub condition : HelmReleaseStatus → Text → Option ConditionSnapshot
unfolding find_condition
condition s type = find_condition type s.conditions

unfoldable pub ready : HelmReleaseStatus → Option ConditionSnapshot
ready s = condition s (text "Ready")

unfoldable pub released : HelmReleaseStatus → Option ConditionSnapshot
released s = condition s (text "Released")

unfoldable pub test_success : HelmReleaseStatus → Option ConditionSnapshot
test_success s = condition s (text "TestSuccess")

pub record OwnedWorkload : Type 0 where
  pub kind : Text
  pub namespace : Text
  pub name : Text
  pub desired : ℕ
  pub ready : ℕ
  pub available : ℕ

pub record WorkloadRollout : Type 0 where
  pub workload : OwnedWorkload
  pub converged : Bool
  pub generation : ℕ
  pub observed_generation : ℕ
